-- ===== src/Core/Channels/Members.antt =====
-- `AddMember` and `RemoveMember` that return.
use openevent.Common.{
  ℕ, ◌<◌, ◌≡◌, ◌⊎◌, ◌∙◌, true, false, List, [], ◌∷◌, ◌++◌, elem, length, arith, IsU64, inl, inr,
  Bool-cases,
}
use openevent.Status.{ok}
use openevent.Proto.{ChannelInfo, is_created_by}
use openevent.Platform.{Platform, Lawful}
use openevent.Storage.Rocks.Updates.{Contents}
use openevent.Core.Access.{is_member}
use openevent.Core.Channels.{
  MemberRequest, erase_member, require_owned_channel, store_members, add_member_to, add_member,
  remove_member_from, remove_member,
}
use openevent.Core.Channels.Effects.{Changes}
use openevent.Core.State.{Core}
use openevent.Core.State.Inversion.{>>=-ok, stored}
use openevent.Core.Text.{member_changed_payload}
use openevent.Core.Channels.Stored.{
  Counts, next_message, Owned, require_owned_channel-Owned, store_members-Changes,
}

module _ (p : Platform) where
  abbrev with_members : ChannelInfo → List ℕ → ChannelInfo
  with_members channel members = record channel { members = members }

  -- What `AddMember` found and left.
  pub record AddsMember (request : MemberRequest) (ts_ms max next : ℕ) (c c' : Contents)
      : Type 0 where
    pub channel : ChannelInfo
    pub owned : Owned p request c channel
    pub by_creator : is_created_by channel.creator request.principal ≡ true
    pub was_no_member : elem request.target_principal channel.members ≡ false
    pub had_room : length channel.members < 1024
    pub changes :
        Changes p
          (with_members channel (channel.members ++ request.target_principal ∷ []))
          (next_message p
            (with_members channel (channel.members ++ request.target_principal ∷ []))
            (member_changed_payload "system.member_added" request.target_principal)
            max
            next
            ts_ms)
          c
          c'

  add_member_to-ok :
      (request : MemberRequest) (ts_ms : ℕ) (s : p.rocks.Snapshot) (channel : ChannelInfo)
      (c c' : Core p)
      → add_member_to p request ts_ms (s, channel) c ≡ (ok tt, c')
      → (is_created_by channel.creator request.principal ≡ true)
        × (elem request.target_principal channel.members ≡ false)
        × (length channel.members < 1024)
        × (store_members p s channel
              (channel.members ++ request.target_principal ∷ [])
              (member_changed_payload "system.member_added" request.target_principal)
              ts_ms
              c
            ≡ (ok tt, c'))
  unfolding add_member_to is_member
  add_member_to-ok request ts_ms s channel c c' h = ground arith

  -- If the stored maximum and next uuid are known and the latter and the channel id fit 64 bits, an
  -- `AddMember` that returns found the token of the principal and the channel stored, with the
  -- principal as its creator, without the target as a member and with fewer than 1024 members; the
  -- channel is stored again with the target as its last member, and the next message of the log
  -- tells of it under the next uuid.
  pub add_member-AddsMember :
      (law : Lawful p) (request : MemberRequest) (ts_ms max next : ℕ) (c c' : Core p)
      → Counts p max next (stored c)
      → IsU64 request.channel_id
      → add_member p request ts_ms c ≡ (ok tt, c')
      → AddsMember request ts_ms max next (stored c) (stored c')
  unfolding add_member
  add_member-AddsMember law request ts_ms max next c c' counts small h =
      let ((s, channel), c₁, e₁, h₁) =
        >>=-ok (require_owned_channel p request) (add_member_to p request ts_ms) c h in
      let (same, seen, owned) = require_owned_channel-Owned p law request c c₁ s channel e₁ in
      let (created, absent, room, done) = add_member_to-ok request ts_ms s channel c₁ c' h₁ in
      let (_, _, _, id_is, _) = owned.channel_stored in
      record {
        channel = channel;
        owned = owned;
        by_creator = created;
        was_no_member = absent;
        had_room = room;
        changes =
            store_members-Changes p law s channel _ _ ts_ms max next c c' seen counts
              (rw id_is small) (rw same at done);
      }

  -- What `RemoveMember` found and left.
  pub record RemovesMember (request : MemberRequest) (ts_ms max next : ℕ) (c c' : Core p)
      : Type 0 where
    pub channel : ChannelInfo
    pub owned : Owned p request (stored c) channel
    pub by_creator : is_created_by channel.creator request.principal ≡ true
    pub creator_stays : is_created_by channel.creator request.target_principal ≡ false
    pub outcome :
        ((elem request.target_principal channel.members ≡ false) × (c' ≡ c))
        ⊎ ((elem request.target_principal channel.members ≡ true)
            × Changes p
                (with_members channel (erase_member request.target_principal channel.members))
                (next_message p
                  (with_members channel (erase_member request.target_principal channel.members))
                  (member_changed_payload "system.member_removed" request.target_principal)
                  max
                  next
                  ts_ms)
                (stored c)
                (stored c'))

  remove_member_from-ok :
      (request : MemberRequest) (ts_ms : ℕ) (s : p.rocks.Snapshot) (channel : ChannelInfo)
      (c c' : Core p)
      → remove_member_from p request ts_ms (s, channel) c ≡ (ok tt, c')
      → (is_created_by channel.creator request.principal ≡ true)
        × (is_created_by channel.creator request.target_principal ≡ false)
        × (elem request.target_principal channel.members ≡ false → c' ≡ c)
        × (elem request.target_principal channel.members ≡ true
            → store_members p s channel
                (erase_member request.target_principal channel.members)
                (member_changed_payload "system.member_removed" request.target_principal)
                ts_ms
                c
              ≡ (ok tt, c'))
  unfolding remove_member_from
  remove_member_from-ok request ts_ms s channel c c' h =
      (ground arith, ground arith, λ e. ground (arith, e), λ e. ground (arith, e))

  -- If the stored maximum and next uuid are known and the latter and the channel id fit 64 bits, a
  -- `RemoveMember` that returns found the token of the principal and the channel stored, with the
  -- principal as its creator, and the target is not its creator; if the target is no member the
  -- state is as it was, and otherwise the channel is stored again without the first occurrence of
  -- the target, and the next message of the log tells of it under the next uuid.
  pub remove_member-RemovesMember :
      (law : Lawful p) (request : MemberRequest) (ts_ms max next : ℕ) (c c' : Core p)
      → Counts p max next (stored c)
      → IsU64 request.channel_id
      → remove_member p request ts_ms c ≡ (ok tt, c')
      → RemovesMember request ts_ms max next c c'
  unfolding remove_member
  remove_member-RemovesMember law request ts_ms max next c c' counts small h =
      let ((s, channel), c₁, e₁, h₁) =
        >>=-ok (require_owned_channel p request) (remove_member_from p request ts_ms) c h in
      let (same, seen, owned) = require_owned_channel-Owned p law request c c₁ s channel e₁ in
      let (created, stays, unchanged, done) =
        remove_member_from-ok request ts_ms s channel c₁ c' h₁ in
      let (_, _, _, id_is, _) = owned.channel_stored in
      record {
        channel = channel;
        owned = owned;
        by_creator = created;
        creator_stays = stays;
        outcome = elim (Bool-cases (elem request.target_principal channel.members)) [
          | inl e ↦ inr (
            e,
            store_members-Changes p law s channel _ _ ts_ms max next c c' seen counts
                (rw id_is small) (rw same at done e),
          )
          | inr e ↦ inl (e, unchanged e ∙ same)
        ];
      }
