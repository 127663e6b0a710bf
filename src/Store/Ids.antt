-- ===== src/Store/Ids.antt =====
-- The text form of a `PaymentId` (`fmt::Display` and `FromStr` in orange-sdk/src/store.rs), under
-- which its metadata is stored. A text is its UTF-8 bytes.
use orange_sdk.Prelude.{
  ◌≡◌, ◌≢◌, ◌<◌, refl, Bool, true, ◌&&◌, not, text_beq, Option, none, some, [], ◌∷◌, ◌++◌, arith,
  ltb, leb, if◌then◌else◌, length, drop, take, Result, ok, err, Text, codes, All,
}
use orange_sdk.Platform.{Hex, HexLaws}
use orange_sdk.Store.Types.{PaymentId, self_custodial, trusted}

unfoldable pub to_string : Hex → PaymentId → Text
to_string hex (self_custodial bytes) = codes "SC-" ++ hex.as_hex bytes
to_string hex (trusted bytes) = codes "TR-" ++ hex.as_hex bytes

-- `str::is_char_boundary` at the start of a text: a byte that continues a character is 0b10xxxxxx.
is_char_boundary : Text → Bool
is_char_boundary [] = true
is_char_boundary (b ∷ _) = not (leb 128 b && ltb b 192)

-- The arms of the `match`, on the first three bytes and on the rest.
parse_tagged : Hex → Text → Text → Result PaymentId (Unit {0})
parse_tagged hex tag rest =
    if text_beq tag (codes "SC-")
    then elim (hex.from_hex rest) [ some id ↦ ok (self_custodial id) | none ↦ err tt ]
    else if text_beq tag (codes "TR-")
    then elim (hex.from_hex rest) [ some id ↦ ok (trusted id) | none ↦ err tt ]
    else err tt

-- `none` is the panic of `&s[..3]` where byte 3 is not at the start of a character.
unfoldable pub from_str : Hex → Text → Option (Result PaymentId (Unit {0}))
unfolding parse_tagged is_char_boundary
from_str hex s =
    if ltb (length s) 4
    then some (err tt)
    else if is_char_boundary (drop 3 s)
    then some (parse_tagged hex (take 3 s) (drop 3 s))
    else none

head_ascii : (s : Text) → s ≢ [] → All (λ b. b < 128) s → is_char_boundary s ≡ true
unfolding is_char_boundary
head_ascii [] ne h = refl
head_ascii (b ∷ s) ne h = ground arith

length_pos : (s : Text) → s ≢ [] → 0 < length s
length_pos [] ne = absurd (ne refl)
length_pos (b ∷ s) ne = omega arith

module _ (hex : Hex) (laws : HexLaws hex) where
  -- Where hex digits are decoded to what they encode, every payment id is read back from its text,
  -- and slicing the text does not panic.
  pub from_str-to_string : (id : PaymentId) → from_str hex (to_string hex id) ≡ some (ok id)
  unfolding from_str to_string text_beq
  from_str-to_string (self_custodial n) = ground (
    arith,
    laws.from_hex-as_hex n,
    length_pos (hex.as_hex n) (laws.as_hex-ne-nil n),
    head_ascii (hex.as_hex n) (laws.as_hex-ne-nil n) (laws.as_hex_ascii n),
  )
  from_str-to_string (trusted n) = ground (
    arith,
    laws.from_hex-as_hex n,
    length_pos (hex.as_hex n) (laws.as_hex-ne-nil n),
    head_ascii (hex.as_hex n) (laws.as_hex-ne-nil n) (laws.as_hex_ascii n),
  )

  -- So two ids share a text only if they are one.
  pub to_string_inj : (a b : PaymentId) → to_string hex a ≡ to_string hex b → a ≡ b
  to_string_inj a b h = cc (from_str-to_string a, from_str-to_string b)
