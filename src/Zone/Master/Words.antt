-- ===== src/Zone/Master/Words.antt =====
-- src/zone.rs: a line of plain words, read back: nothing of it is a comment, and its fields are the
-- words.
use ironbind.Prelude.{
  ℕ, ◌≡◌, refl, sym, ap, ◌∙◌, Bool, true, false, not, ◌&&◌, List, [], ◌∷◌, ◌++◌, arith, leb, ◌==◌,
  filter, is_empty, All, append-nil, append_assoc,
}
use ironbind.Prelude.Chars.{
  Chars, is_whitespace, starts_blank, encode_utf8, as_bytes, trim_start, trim_end, trim,
}
use ironbind.Zone.Master.Scan.{
  outside, see, is_separator, strip_from, strip_zone_comment, balance_from, parenthesis_balance,
  tokens_from, tokenize_zone_line,
}

-- A visible ASCII character that means nothing to the scanner.
abbrev pub word_char : ℕ → Bool
word_char c =
    leb 35 c && leb c 126 && not (c == 40) && not (c == 41) && not (c == 59) && not (c == 92)

abbrev pub IsPlain : Chars → Type 0
IsPlain = All (λ c. word_char c ≡ true)

abbrev pub IsWord : Chars → Type 0
IsWord w = (is_empty w ≡ false) × IsPlain w

word_char-is_whitespace : (c : ℕ) → word_char c ≡ true → is_whitespace c ≡ false
unfolding is_whitespace
word_char-is_whitespace c h = ground arith

word_char-encode_utf8 : (c : ℕ) → word_char c ≡ true → encode_utf8 c ≡ c ∷ []
unfolding encode_utf8
word_char-encode_utf8 c h = ground arith

pub IsPlain-as_bytes : (s : Chars) → IsPlain s → as_bytes s ≡ s
IsPlain-as_bytes [] h = refl
IsPlain-as_bytes (c ∷ cs) (hc, hs) = rw (word_char-encode_utf8 c hc, IsPlain-as_bytes cs hs) refl

pub filter-IsPlain : (s : Chars) → IsPlain s → filter (λ c. not (is_whitespace c)) s ≡ s
filter-IsPlain [] h = refl
filter-IsPlain (c ∷ cs) (hc, hs) = rw (word_char-is_whitespace c hc, filter-IsPlain cs hs) refl

-- The words with a blank between each two.
abbrev pub join_words : List Chars → Chars
join_words [] = []
join_words (w ∷ []) = w
join_words (w ∷ v ∷ ws) = w ++ (32 ∷ join_words (v ∷ ws))

see_word : (c : ℕ) → word_char c ≡ true → see c outside ≡ outside
unfolding see
see_word c h = ground arith

see_blank : see 32 outside ≡ outside
unfolding see
see_blank = refl

-- Behind plain text, the three scanners stand as they stood before it.
strip_plain : (s t : Chars) → IsPlain s → strip_from outside (s ++ t) ≡ s ++ strip_from outside t
unfolding strip_from
strip_plain [] t h = refl
strip_plain (c ∷ cs) t (hc, hs) =
    let stays : (c == 59) ≡ false = ground arith in
    rw (see_word c hc, stays, strip_plain cs t hs) refl

balance_plain : (s t : Chars) → IsPlain s → balance_from outside (s ++ t) ≡ balance_from outside t
unfolding balance_from
balance_plain [] t h = refl
balance_plain (c ∷ cs) t (hc, hs) =
    let stays : ((c == 40) ≡ false) × ((c == 41) ≡ false) = (ground arith, ground arith) in
    rw (see_word c hc, stays.0, stays.1, balance_plain cs t hs) refl

word-is_separator : (c : ℕ) → word_char c ≡ true → is_separator c outside ≡ false
word-is_separator c h = ground (arith, word_char-is_whitespace c h)

tokens_plain :
    (current s t : Chars)
    → IsPlain s
    → tokens_from outside current (s ++ t) ≡ tokens_from outside (current ++ s) t
unfolding tokens_from
tokens_plain current [] t h = rw (append-nil current) refl
tokens_plain current (c ∷ cs) t (hc, hs) =
    rw (see_word c hc, word-is_separator c hc, tokens_plain (current ++ (c ∷ [])) cs t hs)
      (ap (λ w. tokens_from outside w t) (append_assoc current (c ∷ []) cs))

pub strip_zone_comment-join_words :
    (ws : List Chars) → All IsWord ws → strip_zone_comment (join_words ws) ≡ join_words ws
unfolding strip_zone_comment
strip_zone_comment-join_words [] h = refl
strip_zone_comment-join_words (w ∷ []) (hw, hs) =
    ap (strip_from outside) (sym (append-nil w)) ∙ strip_plain w [] hw.1 ∙ append-nil w
strip_zone_comment-join_words (w ∷ v ∷ ws) (hw, hs) =
    strip_plain w (32 ∷ join_words (v ∷ ws)) hw.1
    ∙ ap (λ t. w ++ (32 ∷ t)) (strip_zone_comment-join_words (v ∷ ws) hs)

pub parenthesis_balance-join_words :
    (ws : List Chars) → All IsWord ws → parenthesis_balance (join_words ws) ≡ (0, 0)
unfolding parenthesis_balance balance_from
parenthesis_balance-join_words [] h = refl
parenthesis_balance-join_words (w ∷ []) (hw, hs) =
    ap (balance_from outside) (sym (append-nil w)) ∙ balance_plain w [] hw.1
parenthesis_balance-join_words (w ∷ v ∷ ws) (hw, hs) =
    balance_plain w (32 ∷ join_words (v ∷ ws)) hw.1
    ∙ rw (see_blank, parenthesis_balance-join_words (v ∷ ws) hs) refl

pub tokenize_zone_line-join_words :
    (ws : List Chars) → All IsWord ws → tokenize_zone_line (join_words ws) ≡ ws
unfolding tokenize_zone_line tokens_from
tokenize_zone_line-join_words [] h = refl
tokenize_zone_line-join_words (w ∷ []) (hw, hs) =
    ap (tokens_from outside []) (sym (append-nil w)) ∙ tokens_plain [] w [] hw.1 ∙ rw (hw.0) refl
tokenize_zone_line-join_words (w ∷ v ∷ ws) (hw, hs) =
    tokens_plain [] w (32 ∷ join_words (v ∷ ws)) hw.1
    ∙ rw (see_blank, hw.0, tokenize_zone_line-join_words (v ∷ ws) hs) refl

-- What a blank ends is trimmed to the text before it.
trim_end_plain : (s t : Chars) → IsPlain s → trim_end t ≡ [] → trim_end (s ++ t) ≡ s
trim_end_plain [] t h k = k
trim_end_plain (c ∷ cs) t (hc, hs) k =
    rw (word_char-is_whitespace c hc, trim_end_plain cs t hs k) refl

trim_end_blank :
    (s u : Chars)
    → IsPlain s
    → is_empty (trim_end u) ≡ false
    → trim_end (s ++ (32 ∷ u)) ≡ s ++ (32 ∷ trim_end u)
unfolding is_whitespace
trim_end_blank [] u h k = rw k refl
trim_end_blank (c ∷ cs) u (hc, hs) k =
    rw (word_char-is_whitespace c hc, trim_end_blank cs u hs k) refl

join_words-nonempty :
    (w : Chars) (ws : List Chars) → All IsWord (w ∷ ws) → is_empty (join_words (w ∷ ws)) ≡ false
join_words-nonempty (c ∷ cs) [] h = refl
join_words-nonempty (c ∷ cs) (v ∷ ws) h = refl
join_words-nonempty [] ws ((h, hs), k) = absurd (ground arith)

trim_end-join_words :
    (w : Chars) (ws : List Chars)
    → All IsWord (w ∷ ws)
    → trim_end (join_words (w ∷ ws) ++ (32 ∷ [])) ≡ join_words (w ∷ ws)
unfolding is_whitespace
trim_end-join_words w [] (hw, hs) = trim_end_plain w (32 ∷ []) hw.1 refl
trim_end-join_words w (v ∷ ws) (hw, hs) =
    let ih = trim_end-join_words v ws hs in
    ap trim_end (append_assoc w (32 ∷ join_words (v ∷ ws)) (32 ∷ []))
    ∙ trim_end_blank w (join_words (v ∷ ws) ++ (32 ∷ [])) hw.1
        (ap is_empty ih ∙ join_words-nonempty v ws hs)
    ∙ ap (λ t. w ++ (32 ∷ t)) ih

trim_start_word :
    (w : Chars) (ws : List Chars) (t : Chars)
    → All IsWord (w ∷ ws)
    → trim_start (join_words (w ∷ ws) ++ t) ≡ join_words (w ∷ ws) ++ t
trim_start_word [] ws t ((h, hs), k) = absurd (ground arith)
trim_start_word (c ∷ cs) [] t ((h, hs), k) = rw (word_char-is_whitespace c hs.0) refl
trim_start_word (c ∷ cs) (v ∷ ws) t ((h, hs), k) = rw (word_char-is_whitespace c hs.0) refl

pub trim-join_words :
    (w : Chars) (ws : List Chars)
    → All IsWord (w ∷ ws)
    → trim (join_words (w ∷ ws) ++ (32 ∷ [])) ≡ join_words (w ∷ ws)
trim-join_words w ws h = ap trim_end (trim_start_word w ws (32 ∷ []) h) ∙ trim_end-join_words w ws h

-- The line does not begin with a blank, and is not blank.
pub join_words-starts_blank :
    (w : Chars) (ws : List Chars) (t : Chars)
    → All IsWord (w ∷ ws)
    → starts_blank (join_words (w ∷ ws) ++ t) ≡ false
join_words-starts_blank [] ws t ((h, hs), k) = absurd (ground arith)
join_words-starts_blank (c ∷ cs) [] t ((h, hs), k) = word_char-is_whitespace c hs.0
join_words-starts_blank (c ∷ cs) (v ∷ ws) t ((h, hs), k) = word_char-is_whitespace c hs.0

visible-trim : (c : ℕ) (cs : Chars) → word_char c ≡ true → is_empty (trim (c ∷ cs)) ≡ false
visible-trim c cs h =
    let visible = word_char-is_whitespace c h in
    let starts : trim_start (c ∷ cs) ≡ c ∷ cs = rw visible refl in
    ap (λ s. is_empty (trim_end s)) starts ∙ rw visible refl

pub trim-nonempty :
    (w : Chars) (ws : List Chars)
    → All IsWord (w ∷ ws)
    → is_empty (trim (join_words (w ∷ ws))) ≡ false
trim-nonempty [] ws ((h, hs), k) = absurd (ground arith)
trim-nonempty (c ∷ cs) [] ((h, hs), k) = visible-trim c cs hs.0
trim-nonempty (c ∷ cs) (v ∷ ws) ((h, hs), k) =
    visible-trim c (cs ++ (32 ∷ join_words (v ∷ ws))) hs.0
