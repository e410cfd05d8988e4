-- ===== src/Speech/Newline.antt =====
-- What the normalisation does to a line break.
use interact_kit_sdk.Prelude.{
  ℕ, ◌≡◌, refl, ap, Bool, true, false, not, ◌&&◌, ◌||◌, [], ◌∷◌, ◌++◌, arith, ◌==◌, All,
}
use interact_kit_sdk.Text.{has_prefix, Text}
use interact_kit_sdk.Speech.Normalize.{
  delete_all, delete_each, trim_end, trim_start, normalize_text_for_tts, remove_emojis,
  remove_markdown, squeeze, delete_from, is_re_space,
}

-- characters that stand for themselves in Markdown, and are no white space
abbrev pub is_plain : ℕ → Bool
is_plain c = not (is_re_space c || c == 42 || c == 95 || c == 126 || c == 96)

-- the texts without a character
abbrev Lacks : ℕ → Text → Type 0
Lacks x = All (λ c. (c == x) ≡ false)

delete_from-Lacks : (x : ℕ) (old t : Text) → Lacks x t → delete_from (x ∷ old) 0 t ≡ t
unfolding delete_from has_prefix
delete_from-Lacks x old [] l = refl
delete_from-Lacks x old (c ∷ cs) (l, ls) = rw l (ap (◌∷◌ c) (delete_from-Lacks x old cs ls))

module _ (kept : ℕ → Bool) where
  -- a word: characters that the normalisation leaves alone
  abbrev pub IsWord : Text → Type 0
  IsWord = All (λ c. (kept c && is_plain c) ≡ true)

  Word-Lacks : (x : ℕ) (t : Text) → is_plain x ≡ false → IsWord t → Lacks x t
  Word-Lacks x [] p w = tt
  Word-Lacks x (c ∷ cs) p (w, ws) = (ground (arith, p, w), Word-Lacks x cs p ws)

  Lacks-break :
      (x : ℕ) (v w : Text) → (10 == x) ≡ false → Lacks x v → Lacks x w → Lacks x (v ++ (10 ∷ w))
  Lacks-break x [] w n a b = (n, b)
  Lacks-break x (c ∷ cs) w n (a, as') b = (a, Lacks-break x cs w n as' b)

  IsWord-append : (v w : Text) → IsWord v → IsWord w → IsWord (v ++ w)
  IsWord-append [] w a b = b
  IsWord-append (c ∷ cs) w (a, as') b = (a, IsWord-append cs w as' b)

  remove_markdown-break :
      (v w : Text) → IsWord v → IsWord w → remove_markdown (v ++ (10 ∷ w)) ≡ v ++ (10 ∷ w)
  unfolding remove_markdown delete_each delete_all
  remove_markdown-break v w a b =
      let t = v ++ (10 ∷ w) in
      let lacks = λ (x : ℕ) (p : is_plain x ≡ false) (n : (10 == x) ≡ false).
        Lacks-break x v w n (Word-Lacks x v p a) (Word-Lacks x w p b) in
      let star = lacks 42 (ground arith) (ground arith) in
      rw
        (
          delete_from-Lacks 42 (42 ∷ []) t star,
          delete_from-Lacks 42 [] t star,
          delete_from-Lacks 95 (95 ∷ []) t (lacks 95 (ground arith) (ground arith)),
          delete_from-Lacks 126 (126 ∷ []) t (lacks 126 (ground arith) (ground arith)),
          delete_from-Lacks 96 [] t (lacks 96 (ground arith) (ground arith)),
        )
        refl

  remove_emojis-word : (w : Text) → IsWord w → remove_emojis kept w ≡ w
  unfolding remove_emojis
  remove_emojis-word [] a = refl
  remove_emojis-word (c ∷ cs) (a, as') = ground (arith, remove_emojis-word cs as')

  remove_emojis-break :
      (v w : Text)
      → kept 10 ≡ false
      → IsWord v
      → IsWord w
      → remove_emojis kept (v ++ (10 ∷ w)) ≡ v ++ w
  unfolding remove_emojis
  remove_emojis-break [] w k a b = rw k (remove_emojis-word w b)
  remove_emojis-break (c ∷ cs) w k (a, as') b = ground (arith, remove_emojis-break cs w k as' b)

  squeeze-word : (w : Text) → IsWord w → squeeze false w ≡ w
  unfolding squeeze
  squeeze-word [] a = refl
  squeeze-word (c ∷ cs) (a, as') = ground (arith, squeeze-word cs as')

  trim_start-word : (w : Text) → IsWord w → trim_start w ≡ w
  unfolding trim_start
  trim_start-word [] a = refl
  trim_start-word (c ∷ cs) (a, as') = ground arith

  trim_end-word : (w : Text) → IsWord w → trim_end w ≡ w
  unfolding trim_end
  trim_end-word [] a = refl
  trim_end-word (c ∷ cs) (a, as') = ground (arith, trim_end-word cs as')

  -- Where a line break is in none of the kept classes, two words that only a line break separates
  -- are spoken as one word.
  pub normalize_joins_lines :
      (v w : Text)
      → kept 10 ≡ false
      → IsWord v
      → IsWord w
      → normalize_text_for_tts kept (v ++ (10 ∷ w)) ≡ v ++ w
  unfolding normalize_text_for_tts
  normalize_joins_lines v w k a b =
      let word = IsWord-append v w a b in
      rw
        (
          remove_markdown-break v w a b,
          remove_emojis-break v w k a b,
          squeeze-word (v ++ w) word,
          trim_start-word (v ++ w) word,
        )
        (trim_end-word (v ++ w) word)
