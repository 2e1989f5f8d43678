-- ===== src/Prelude/Text.antt =====
-- The operations of Rust's `str` that the sources use on whole texts.
use Prim.Native.Nat.{ℕ, ◌+◌}
use Prim.Native.Char.{code}
use Prim.Native.String.{String, [], ◌∷◌}
use mathlib.Core.Bool.{Bool, true, false, ◌&&◌, ◌||◌}
use axonel.Prelude.Tests.{leb, ◌==◌, if◌then◌else◌}

-- The code points with Unicode's White_Space property, as `char::is_whitespace` has them.
abbrev pub is_whitespace : ℕ → Bool
is_whitespace c =
    (leb 9 c && leb c 13)
    || c == 32
    || c == 0x85
    || c == 0xa0
    || c == 0x1680
    || (leb 0x2000 c && leb c 0x200a)
    || c == 0x2028
    || c == 0x2029
    || c == 0x202f
    || c == 0x205f
    || c == 0x3000

abbrev pub is_empty : String → Bool
is_empty [] = true
is_empty (c ∷ s) = false

pub trim_start_matches : (ℕ → Bool) → String → String
trim_start_matches p [] = []
trim_start_matches p (c ∷ s) = if p (code c) then trim_start_matches p s else c ∷ s

pub trim_end_matches : (ℕ → Bool) → String → String
trim_end_matches p [] = []
trim_end_matches p (c ∷ s) =
    let rest = trim_end_matches p s in if is_empty rest && p (code c) then [] else c ∷ rest

-- `s.trim()`
unfoldable pub trim : String → String
unfolding trim_start_matches trim_end_matches
trim s = trim_end_matches is_whitespace (trim_start_matches is_whitespace s)

-- `s.trim_matches('"')`
unfoldable pub trim_quotes : String → String
unfolding trim_start_matches trim_end_matches
trim_quotes s =
    let quote = λ (c : ℕ). c == 34 in trim_end_matches quote (trim_start_matches quote s)

-- The code point of an ASCII capital's small letter. `str::to_lowercase` also maps other capitals,
-- and of these only U+0130 and U+212A to text with ASCII letters in it, `i` with a combining dot
-- and `k`; no text that the sources look for has an `i` before such a dot, or a `k`.
abbrev lower : ℕ → ℕ
lower c = if leb 65 c && leb c 90 then c + 32 else c

-- `s.to_lowercase() == t`, for an ASCII text `t`
unfoldable pub lower_equals : String → String → Bool
lower_equals [] [] = true
lower_equals [] (d ∷ t) = false
lower_equals (c ∷ s) [] = false
lower_equals (c ∷ s) (d ∷ t) = lower (code c) == code d && lower_equals s t

-- `s.to_lowercase().starts_with(t)`, for an ASCII text `t`
unfoldable pub lower_starts_with : String → String → Bool
lower_starts_with s [] = true
lower_starts_with [] (d ∷ t) = false
lower_starts_with (c ∷ s) (d ∷ t) = lower (code c) == code d && lower_starts_with s t

-- `s.to_lowercase().contains(t)`, for an ASCII text `t`
unfoldable pub lower_contains : String → String → Bool
unfolding lower_starts_with
lower_contains [] t = is_empty t
lower_contains (c ∷ s) t = lower_starts_with (c ∷ s) t || lower_contains s t

-- `s.eq_ignore_ascii_case(t)`
unfoldable pub eq_ignore_ascii_case : String → String → Bool
eq_ignore_ascii_case [] [] = true
eq_ignore_ascii_case [] (d ∷ t) = false
eq_ignore_ascii_case (c ∷ s) [] = false
eq_ignore_ascii_case (c ∷ s) (d ∷ t) = lower (code c) == lower (code d) && eq_ignore_ascii_case s t

starts_with : String → String → Bool
starts_with s [] = true
starts_with [] (d ∷ t) = false
starts_with (c ∷ s) (d ∷ t) = code c == code d && starts_with s t

-- `s.contains(t)`
unfoldable pub contains_text : String → String → Bool
unfolding starts_with
contains_text [] t = is_empty t
contains_text (c ∷ s) t = starts_with (c ∷ s) t || contains_text s t
