-- ===== src/Words.antt =====
-- `_WORD_RE.findall(text.lower())` of agent/nodes.py and providers/mock.py: the words of a text.
use Prim.Native.Char.{code}
use agentdesk_ai.Base.{
  ℕ, ◌+◌, Bool, true, false, ◌&&◌, ◌||◌, List, [], ◌∷◌, ◌++◌, String, leb, ◌==◌, if◌then◌else◌,
}

abbrev pub Word : Type 0
Word = List ℕ

-- The code points of a text.
abbrev pub codes : String → List ℕ
codes String.[] = []
codes (String.◌∷◌ c s) = code c ∷ codes s

-- `str.lower`, one character at a time. Beyond A to Z two characters have an ASCII letter in their
-- lower case, the Kelvin sign and the dotted capital I; no other ends in `[a-z0-9]`.
unfoldable pub lower : ℕ → List ℕ
lower c =
    if leb b'A' c && leb c b'Z'
    then (c + 32) ∷ []
    else if c == 0x212a
    then b'k' ∷ []
    else if c == 0x130
    then b'i' ∷ 0x307 ∷ []
    else c ∷ []

unfoldable pub lower_all : List ℕ → List ℕ
unfolding lower
lower_all [] = []
lower_all (c ∷ cs) = lower c ++ lower_all cs

-- `[a-z0-9]`
unfoldable pub is_word_char : ℕ → Bool
is_word_char c = (leb b'a' c && leb c b'z') || (leb b'0' c && leb c b'9')

abbrev pub push : Word → List Word → List Word
push [] ws = ws
push (c ∷ w) ws = (c ∷ w) ∷ ws

-- The word that the text begins with, if any, and the later ones.
unfoldable pub split : List ℕ → Word × List Word
unfolding is_word_char
split [] = ([], [])
split (c ∷ cs) = let (w, ws) = split cs in if is_word_char c then (c ∷ w, ws) else ([], push w ws)

unfoldable pub find_words : List ℕ → List Word
unfolding split
find_words cs = let (w, ws) = split cs in push w ws

unfoldable pub tokens : String → List Word
unfolding lower_all find_words
tokens text = find_words (lower_all (codes text))

abbrev pub word_eq : Word → Word → Bool
word_eq [] [] = true
word_eq (a ∷ v) (b ∷ w) = a == b && word_eq v w
word_eq _ _ = false

unfoldable pub has_word : List Word → Word → Bool
has_word [] w = false
has_word (v ∷ vs) w = word_eq v w || has_word vs w

-- `set(words)`
unfoldable pub distinct : List Word → List Word
unfolding has_word
distinct [] = []
distinct (w ∷ ws) = let rest = distinct ws in if has_word ws w then rest else w ∷ rest

-- `len(a & b)` of the sets of words, `a` without repetition
unfoldable pub common : List Word → List Word → ℕ
unfolding has_word
common [] ws = 0
common (v ∷ vs) ws = (if has_word ws v then 1 else 0) + common vs ws
