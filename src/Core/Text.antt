-- ===== src/Core/Text.antt =====
-- The payloads of system messages (src/service/open_event_core.cpp): JSON text.
use openevent.Common.{
  ℕ, ◌+◌, ◌-◌, ◌/◌, ◌%◌, ◌||◌, List, [], ◌∷◌, ◌++◌, String, Bytes, codes, ltb, ◌==◌, if◌then◌else◌,
}
use openevent.Common.Decimal.{to_string}
use openevent.Proto.{
  ChannelInfo, Visibility, visibility_protected, visibility_private, creator_or_zero,
}

-- `kHex`.
unfoldable pub hex_char : ℕ → ℕ
hex_char d = if ltb d 10 then b'0' + d else b'a' + (d - 10)

unfoldable pub json_char : ℕ → Bytes
unfolding hex_char
json_char ch =
    if ch == 34 || ch == 92
    then 92 ∷ ch ∷ []
    else if ltb ch 32
    then codes "\\u00" ++ (hex_char (ch / 16) ∷ hex_char (ch % 16) ∷ [])
    else ch ∷ []

unfoldable pub json_chars : Bytes → Bytes
json_chars [] = []
json_chars (ch ∷ rest) = json_char ch ++ json_chars rest

unfoldable pub json_string : Bytes → Bytes
json_string value = 34 ∷ (json_chars value ++ 34 ∷ [])

abbrev visibility_name : Visibility → Bytes
visibility_name visibility_private = codes "private"
visibility_name visibility_protected = codes "protected"
visibility_name _ = codes "public"

unfoldable pub members_text : List ℕ → Bytes
members_text [] = []
members_text (m ∷ []) = to_string m
members_text (m ∷ n ∷ rest) = to_string m ++ (b',' ∷ members_text (n ∷ rest))

unfoldable pub channel_initialized_payload : ChannelInfo → Bytes
channel_initialized_payload channel =
    codes "{\"kind\":\"system.channel_initialized\",\"data\":{\"schema_version\":1,\"name\":"
    ++ (json_string channel.name
        ++ (codes ",\"protocol\":"
            ++ (json_string channel.protocol
                ++ (codes ",\"description\":"
                    ++ (json_string channel.description
                        ++ (codes ",\"visibility\":\""
                            ++ (visibility_name channel.visibility
                                ++ (codes "\",\"creator\":"
                                    ++ (to_string (creator_or_zero channel)
                                        ++ (codes ",\"members\":["
                                            ++ (members_text channel.members
                                                ++ codes "]}}")))))))))))

unfoldable pub member_changed_payload : String → ℕ → Bytes
member_changed_payload kind member =
    codes "{\"kind\":\""
    ++ (codes kind
        ++ (codes "\",\"data\":{\"schema_version\":1,\"member\":"
            ++ (to_string member ++ codes "}}")))
