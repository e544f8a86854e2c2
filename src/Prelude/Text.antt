-- ===== src/Prelude/Text.antt =====
-- Python's `str` methods that the program uses, over the native `String`.
use Prim.Native.Nat.{ℕ, zero, suc, ◌/◌, ◌%◌}
use Prim.Native.Char.{Char, code}
use Prim.Native.String
use Prim.Native.String.{String}
use mathlib.Core.Path.{◌≡◌, refl}
use mathlib.Core.Bool.{Bool, true, false, not, ◌&&◌, ◌||◌}
use mathlib.Core.List.{List, [], ◌∷◌}
use text.Mathlib.Text.{◌==◌}
use master_control.Prelude.Tests.{leb, ltb, eqb, if◌then◌else◌}

-- `"".join(parts)`; an f-string is the join of its parts.
unfoldable pub concat : List String → String
concat [] = ""
concat (s ∷ parts) = String.◌++◌ s (concat parts)

join_tail : String → List String → List String
join_tail sep [] = []
join_tail sep (s ∷ parts) = sep ∷ s ∷ join_tail sep parts

-- `sep.join(parts)`
unfoldable pub join : String → List String → String
unfolding join_tail concat
join sep [] = ""
join sep (s ∷ parts) = concat (s ∷ join_tail sep parts)

-- `str.isspace` of one character.
unfoldable pub is_space : ℕ → Bool
is_space c =
    (leb 9 c && leb c 13)
    || (leb 28 c && leb c 32)
    || eqb c 133
    || eqb c 160
    || eqb c 5760
    || (leb 8192 c && leb c 8202)
    || eqb c 8232
    || eqb c 8233
    || eqb c 8239
    || eqb c 8287
    || eqb c 12288

unfoldable pub lstrip : String → String
unfolding is_space
lstrip String.[] = ""
lstrip (String.◌∷◌ c s) = let rest = lstrip s in if is_space (code c) then rest else String.◌∷◌ c s

cons_unless_blank : Char → String → String
unfolding is_space
cons_unless_blank c String.[] = if is_space (code c) then "" else String.◌∷◌ c String.[]
cons_unless_blank c (String.◌∷◌ d s) = String.◌∷◌ c (String.◌∷◌ d s)

unfoldable pub rstrip : String → String
unfolding cons_unless_blank
rstrip String.[] = ""
rstrip (String.◌∷◌ c s) = cons_unless_blank c (rstrip s)

unfoldable pub strip : String → String
unfolding lstrip rstrip
strip s = rstrip (lstrip s)

-- `not s`: a text is false exactly when it is empty.
abbrev pub is_empty : String → Bool
is_empty String.[] = true
is_empty (String.◌∷◌ _ _) = false

digit : ℕ → String
digit n =
    if eqb n 0
    then "0"
    else if eqb n 1
    then "1"
    else if eqb n 2
    then "2"
    else if eqb n 3
    then "3"
    else if eqb n 4
    then "4"
    else if eqb n 5
    then "5"
    else if eqb n 6
    then "6"
    else if eqb n 7
    then "7"
    else if eqb n 8
    then "8"
    else "9"

decimal_with : ℕ → ℕ → String
decimal_with zero n = ""
decimal_with (suc fuel) n =
    let more = decimal_with fuel (n / 10) in
    if ltb n 10 then digit n else String.◌++◌ more (digit (n % 10))

-- `str` of a number that is not negative; it has at most as many digits as its value.
unfoldable pub decimal : ℕ → String
unfolding digit decimal_with
decimal n = decimal_with (suc n) n

-- `s.startswith(prefix)`
unfoldable pub begins_with : String → String → Bool
begins_with s String.[] = true
begins_with String.[] (String.◌∷◌ d p) = false
begins_with (String.◌∷◌ c s) (String.◌∷◌ d p) = eqb (code c) (code d) && begins_with s p

-- `s.endswith(suffix)`
unfoldable pub ends_with : String → String → Bool
ends_with String.[] p = p == ""
ends_with (String.◌∷◌ c s) p = (String.◌∷◌ c s == p) || ends_with s p

-- `ch in s`, for one character.
unfoldable pub has_char : ℕ → String → Bool
has_char n String.[] = false
has_char n (String.◌∷◌ c s) = eqb (code c) n || has_char n s

unfoldable pub all_chars : (ℕ → Bool) → String → Bool
all_chars p String.[] = true
all_chars p (String.◌∷◌ c s) = p (code c) && all_chars p s

decimal_test : decimal 1205 ≡ "1205"
unfolding decimal
decimal_test = refl

affix_test :
    (begins_with "abc" "ab" && ends_with "nginx.service" ".service" && not (ends_with "" "x"))
    ≡ true
unfolding begins_with ends_with
affix_test = refl

strip_test : strip "  a b\n " ≡ "a b"
unfolding strip
strip_test = refl

join_test : join ", " ("a" ∷ "b" ∷ []) ≡ "a, b"
unfolding join
join_test = refl
