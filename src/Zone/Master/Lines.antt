-- ===== src/Zone/Master/Lines.antt =====
-- src/zone.rs: the lines of a file whose lines are plain words.
use ironbind.Prelude.{
  ◌≡◌, refl, ap, false, List, [], ◌∷◌, ◌++◌, arith, ◌==◌, All, All-append, Bool-cases, inl, inr,
}
use ironbind.Prelude.Chars.{Chars, split, drop_return, lines}
use ironbind.Zone.Master.Words.{IsPlain, IsWord, join_words}

-- Neither a line feed nor a carriage return.
abbrev InLine : Chars → Type 0
InLine = All (λ c. ((c == 10) ≡ false) × ((c == 13) ≡ false))

word_char-InLine : (s : Chars) → IsPlain s → InLine s
word_char-InLine [] h = _
word_char-InLine (c ∷ cs) (hc, hs) = ((ground arith, ground arith), word_char-InLine cs hs)

join_words-InLine : (ws : List Chars) → All IsWord ws → InLine (join_words ws)
join_words-InLine [] h = _
join_words-InLine (w ∷ []) (hw, hs) = word_char-InLine w hw.1
join_words-InLine (w ∷ v ∷ ws) (hw, hs) =
    All-append (λ c. ((c == 10) ≡ false) × ((c == 13) ≡ false)) w (32 ∷ join_words (v ∷ ws))
      (word_char-InLine w hw.1) ((refl, refl), join_words-InLine (v ∷ ws) hs)

split-InLine : (s t : Chars) → InLine s → split 10 (s ++ (10 ∷ t)) ≡ s ∷ split 10 t
unfolding split
split-InLine [] t h = refl
split-InLine (c ∷ cs) t ((hc, hr), hs) = rw (hc, split-InLine cs t hs) refl

drop_return-InLine : (s : Chars) → InLine s → drop_return s ≡ s
drop_return-InLine [] h = refl
drop_return-InLine (c ∷ []) ((hc, hr), hs) = rw hr refl
drop_return-InLine (c ∷ d ∷ cs) ((hc, hr), hs) = ap (λ t. c ∷ t) (drop_return-InLine (d ∷ cs) hs)

split-cons : (t : Chars) → (m : Chars) × (ls : List Chars) × (split 10 t ≡ m ∷ ls)
unfolding split
split-cons [] = ([], [], refl)
split-cons (c ∷ cs) = elim (Bool-cases (c == 10)) [
  | inl here ↦ ([], split 10 cs, rw here refl)
  | inr later ↦ let (m, ls, e) = split-cons cs in (c ∷ m, ls, rw (later, e) refl)
]

pub lines-join_words :
    (ws : List Chars) (t : Chars)
    → All IsWord ws
    → lines (join_words ws ++ (10 ∷ t)) ≡ join_words ws ∷ lines t
unfolding lines
lines-join_words ws t h =
    let here = join_words-InLine ws h in
    let (m, ls, e) = split-cons t in
    rw (split-InLine (join_words ws) t here, e, drop_return-InLine (join_words ws) here) refl
