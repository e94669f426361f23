-- ===== src/Prelude/Text.antt =====
-- Python's text functions, over the characters of a `String`.
use Prim.Native.Char.{Char, code}
use Prim.Native.String.{String, ◌++◌}
use mathlib.Core.Bool.{Bool, true, false, not, ◌&&◌, ◌||◌}
use mathlib.Core.List.{List, [], ◌∷◌}
use xiao_ming.Prelude.Tests.{leb, eqb, ◌==◌, if◌then◌else◌}

-- str.isspace for one character
unfoldable pub is_space : Char → Bool
is_space c =
    let n = code c in
    (leb 9 n && leb n 13)
    || (leb 28 n && leb n 32)
    || eqb n 0x85
    || eqb n 0xa0
    || eqb n 0x1680
    || (leb 0x2000 n && leb n 0x200a)
    || eqb n 0x2028
    || eqb n 0x2029
    || eqb n 0x202f
    || eqb n 0x205f
    || eqb n 0x3000

-- text.lstrip()
unfoldable pub lstrip : String → String
unfolding is_space
lstrip String.[] = String.[]
lstrip (String.◌∷◌ c s) = let rest = lstrip s in if is_space c then rest else String.◌∷◌ c s

-- text.rstrip()
unfoldable pub rstrip : String → String
unfolding is_space
rstrip String.[] = String.[]
rstrip (String.◌∷◌ c s) =
    let rest = rstrip s in if rest == "" && is_space c then String.[] else String.◌∷◌ c rest

-- text.strip()
unfoldable pub strip : String → String
unfolding lstrip rstrip
strip s = rstrip (lstrip s)

starts_word : String → Bool
unfolding is_space
starts_word String.[] = false
starts_word (String.◌∷◌ c s) = not (is_space c)

glue : Char → Bool → List String → List String
glue c true (w ∷ ws) = String.◌∷◌ c w ∷ ws
glue c _ ws = String.◌∷◌ c String.[] ∷ ws

-- text.split()
unfoldable pub split : String → List String
unfolding is_space starts_word glue
split String.[] = []
split (String.◌∷◌ c s) =
    let rest = split s in if is_space c then rest else glue c (starts_word s) rest

-- sep.join(parts)
unfoldable pub join : String → List String → String
join sep [] = ""
join sep (w ∷ []) = w
join sep (w ∷ v ∷ ws) = w ++ (sep ++ join sep (v ∷ ws))

-- "".join(parts), which also writes an f-string
unfoldable pub concat : List String → String
concat [] = ""
concat (w ∷ ws) = w ++ concat ws

translate : String → String → Char → Char
translate (String.◌∷◌ x from) (String.◌∷◌ y to) c =
    let rest = translate from to c in if eqb (code x) (code c) then y else rest
translate _ _ c = c

-- text.lower(), as far as it can give ASCII letters: the capitals and the Kelvin sign are mapped,
-- and other letters stay
unfoldable pub lower : String → String
unfolding translate
lower String.[] = String.[]
lower (String.◌∷◌ c s) =
    String.◌∷◌ (translate "ABCDEFGHIJKLMNOPQRSTUVWXYZK" "abcdefghijklmnopqrstuvwxyzk" c) (lower s)

-- text.replace(old, new) for single characters
unfoldable pub replace_char : Char → Char → String → String
replace_char old new String.[] = String.[]
replace_char old new (String.◌∷◌ c s) =
    String.◌∷◌ (if eqb (code c) (code old) then new else c) (replace_char old new s)

is_break : Char → Bool
is_break c =
    let n = code c in
    (leb 10 n && leb n 13) || (leb 28 n && leb n 30) || eqb n 0x85 || eqb n 0x2028 || eqb n 0x2029

starts_feed : String → Bool
starts_feed String.[] = false
starts_feed (String.◌∷◌ c s) = eqb (code c) 10

push : Char → List String → List String
push c [] = String.◌∷◌ c String.[] ∷ []
push c (w ∷ ws) = String.◌∷◌ c w ∷ ws

-- text.splitlines(): a carriage return before a line feed is one break with it
unfoldable pub splitlines : String → List String
unfolding is_break starts_feed push
splitlines String.[] = []
splitlines (String.◌∷◌ c s) =
    let rest = splitlines s in
    if eqb (code c) 13 && starts_feed s then rest else if is_break c then "" ∷ rest else push c rest

-- text.split(sep) for a single character
unfoldable pub split_char : Char → String → List String
unfolding push
split_char sep String.[] = "" ∷ []
split_char sep (String.◌∷◌ c s) =
    let rest = split_char sep s in if eqb (code c) (code sep) then "" ∷ rest else push c rest

-- sep in text, for a single character
unfoldable pub has_char : Char → String → Bool
has_char sep String.[] = false
has_char sep (String.◌∷◌ c s) = eqb (code c) (code sep) || has_char sep s

-- t.startswith(s)
abbrev pub starts_with : String → String → Bool
starts_with String.[] t = true
starts_with (String.◌∷◌ c s) String.[] = false
starts_with (String.◌∷◌ c s) (String.◌∷◌ d t) = eqb (code c) (code d) && starts_with s t
