-- ===== src/Delivery/Validate/Html.antt =====
-- `sanitizeDispatchHtml` of packages/notice-delivery/src/domain.ts. A pattern is a function that
-- returns what follows a match at the head of the text; a `replace` with the flag `g` drops each
-- match from left to right.
use claim_it_all.Prelude.{
  ℕ, zero, suc, ◌+◌, ◌-◌, Bool, true, false, ◌&&◌, ◌||◌, Option, none, some, [], ◌∷◌, leb, ◌==◌,
  length, if◌then◌else◌,
}
use claim_it_all.Prelude.Text.{Text, codes, is_space}

-- Case folding under the flag `i`, which without `u` takes no other letter to an ASCII one.
abbrev pub fold : ℕ → ℕ
fold c = if leb b'A' c && leb c b'Z' then c + 32 else c

-- A word in lower case at the head, in any case.
pub word : Text → Text → Option Text
word [] t = some t
word (p ∷ ps) [] = none
word (p ∷ ps) (c ∷ t) = if fold c == p then word ps t else none

-- `[\s\S]*?` before a word: up to the end of its first occurrence.
pub through : Text → Text → Option Text
through w [] = word w []
through w (c ∷ t) = elim (word w (c ∷ t)) [ some rest ↦ some rest | none ↦ through w t ]

-- `/word/i.test(t)`
unfoldable pub contains_ci : Text → Text → Bool
unfolding through word
contains_ci w t = elim (through w t) [ some rest ↦ true | none ↦ false ]

abbrev is_word_char : ℕ → Bool
is_word_char c =
    (leb b'a' c && leb c b'z')
    || (leb b'A' c && leb c b'Z')
    || (leb b'0' c && leb c b'9')
    || c == b'_'

abbrev drop_while : (ℕ → Bool) → Text → Text
drop_while p [] = []
drop_while p (c ∷ t) = let rest = drop_while p t in if p c then rest else c ∷ t

-- `\w+`
abbrev word_chars : Text → Option Text
word_chars [] = none
word_chars (c ∷ t) = if is_word_char c then some (drop_while is_word_char t) else none

-- `\s`
abbrev one_space : Text → Option Text
one_space [] = none
one_space (c ∷ t) = if is_space c then some t else none

abbrev is_line_end : ℕ → Bool
is_line_end c = c == 10 || c == 13 || c == 0x2028 || c == 0x2029

-- `.*?` and the quote `q`
until_quote : ℕ → Text → Option Text
until_quote q [] = none
until_quote q (c ∷ t) =
    let rest = until_quote q t in if c == q then some t else if is_line_end c then none else rest

-- `(['"]).*?\1`
abbrev quoted : Text → Option Text
quoted [] = none
quoted (c ∷ t) = if c == b'"' || c == b'\'' then until_quote c t else none

infixl 5 ◌>>=◌
abbrev ◌>>=◌ : Option Text → (Text → Option Text) → Option Text
none >>= f = none
some t >>= f = f t

-- `/<name[\s\S]*?>[\s\S]*?<\/name>/i`
element : Text → Text → Text → Option Text
element open_tag close_tag t = do
  a ← word open_tag t
  b ← through (codes ">") a
  through close_tag b

-- `/\son\w+\s*=\s*(['"]).*?\1/i`
handler : Text → Option Text
handler t = do
  a ← one_space t
  b ← word (codes "on") a
  c ← word_chars b
  d ← word (codes "=") (drop_while is_space c)
  quoted (drop_while is_space d)

-- The scan: `skip` units of a match are still to be dropped.
drop_matches : (Text → Option Text) → ℕ → Text → Text
drop_matches match skip [] = []
drop_matches match (suc skip) (c ∷ t) = drop_matches match skip t
drop_matches match zero (c ∷ t) = elim (match (c ∷ t)) [
  | none ↦ c ∷ drop_matches match zero t
  | some rest ↦ drop_matches match (length t - length rest) t
]

unfoldable pub sanitize_dispatch_html : Text → Text
unfolding element handler drop_matches word through until_quote
sanitize_dispatch_html html =
    let a = drop_matches (element (codes "<script") (codes "</script>")) 0 html in
    let b = drop_matches handler 0 a in
    let c = drop_matches (word (codes "javascript:")) 0 b in
    drop_matches (element (codes "<iframe") (codes "</iframe>")) 0 c
