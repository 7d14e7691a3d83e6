-- ===== src/Prelude/Text.antt =====
-- Rust's `String` and `&str`: the Unicode scalar values of a text. Comparing by these is comparing
-- the UTF-8 bytes.
use Prim.Native.Nat.{ℕ, zero, suc, ◌+◌, ◌/◌, ◌%◌}
use Prim.Native.Char.{code}
use Prim.Native.String.{String}
use mathlib.Core.Bool.{Bool, ◌&&◌, ◌||◌}
use mathlib.Core.List.{List, [], ◌∷◌, ◌++◌}
use boop_orkia_cli.Prelude.Tests.{ltb, leb, nat_eq, if◌then◌else◌}
use boop_orkia_cli.Prelude.Lists.{all}

abbrev pub Text : Type 0
Text = List ℕ

-- The code points of a literal.
unfoldable pub text : String → Text
text String.[] = []
text (String.◌∷◌ c s) = code c ∷ text s

unfoldable pub digits_from : ℕ → ℕ → Text → Text
digits_from zero n out = out
digits_from (suc fuel) n out =
    let digit = (48 + n % 10) ∷ out in
    let rest = digits_from fuel (n / 10) digit in if ltb n 10 then digit else rest

-- `n.to_string()`. A number has no more digits than its successor counts.
unfoldable pub decimal : ℕ → Text
decimal n = digits_from (suc n) n []

-- `char::is_whitespace`, the Unicode property White_Space.
unfoldable pub is_whitespace : ℕ → Bool
is_whitespace c =
    (leb 9 c && leb c 13)
    || nat_eq c 32
    || nat_eq c 133
    || nat_eq c 160
    || nat_eq c 5760
    || (leb 8192 c && leb c 8202)
    || nat_eq c 8232
    || nat_eq c 8233
    || nat_eq c 8239
    || nat_eq c 8287
    || nat_eq c 12288

-- `text.trim().is_empty()`
unfoldable pub is_blank : Text → Bool
is_blank t = all is_whitespace t

-- `is_ascii_alphanumeric`
abbrev pub is_ascii_alphanumeric : ℕ → Bool
is_ascii_alphanumeric c =
    (leb b'0' c && leb c b'9') || (leb b'A' c && leb c b'Z') || (leb b'a' c && leb c b'z')

-- `is_ascii_hexdigit`
abbrev pub is_ascii_hexdigit : ℕ → Bool
is_ascii_hexdigit c =
    (leb b'0' c && leb c b'9') || (leb b'A' c && leb c b'F') || (leb b'a' c && leb c b'f')

-- `text.split(separator).any(p)`, with the current part read so far in `part`.
unfoldable pub any_part : ℕ → (Text → Bool) → Text → Text → Bool
any_part separator p part [] = p part
any_part separator p part (c ∷ cs) =
    let here = any_part separator p [] cs in
    let there = any_part separator p (part ++ c ∷ []) cs in
    if nat_eq c separator then p part || here else there

-- `as_bytes` of one character: its UTF-8 encoding.
abbrev pub utf8_char : ℕ → List ℕ
utf8_char c =
    if ltb c 128
    then c ∷ []
    else if ltb c 2048
    then (192 + c / 64) ∷ (128 + c % 64) ∷ []
    else if ltb c 65536
    then (224 + c / 4096) ∷ (128 + (c / 64) % 64) ∷ (128 + c % 64) ∷ []
    else (240 + c / 262144) ∷ (128 + (c / 4096) % 64) ∷ (128 + (c / 64) % 64) ∷ (128 + c % 64) ∷ []

-- `as_bytes`
unfoldable pub utf8 : Text → List ℕ
utf8 [] = []
utf8 (c ∷ cs) = utf8_char c ++ utf8 cs
