-- ===== src/Speech/Normalize.antt =====
-- handlers/tts/tts_normalizer.go. The tables of Unicode behind `\p{...}` are those of the regular
-- expression package, and the parameter `kept`: the characters in one of the classes L, N, P and Z.
use interact_kit_sdk.Prelude.{
  ℕ, zero, suc, ◌-◌, Bool, true, false, ◌||◌, List, [], ◌∷◌, ◌==◌, if◌then◌else◌, length,
}
use interact_kit_sdk.Text.{Text, codes, has_prefix}

-- Every occurrence of a pattern removed, from the left; `skip` counts the characters of the
-- occurrence that is being removed.
unfoldable pub delete_from : Text → ℕ → Text → Text
unfolding has_prefix
delete_from old skip [] = []
delete_from old (suc skip) (c ∷ cs) = delete_from old skip cs
delete_from old zero (c ∷ cs) =
    let removed = delete_from old (length old - 1) cs in
    let left = c ∷ delete_from old zero cs in if has_prefix (c ∷ cs) old then removed else left

-- `replaceAll(text, old, "")`
unfoldable pub delete_all : Text → Text → Text
unfolding delete_from
delete_all old text = delete_from old zero text

abbrev pub markdown : List Text
markdown = codes "**" ∷ codes "*" ∷ codes "__" ∷ codes "~~" ∷ codes "`" ∷ []

unfoldable pub delete_each : List Text → Text → Text
unfolding delete_all
delete_each [] text = text
delete_each (old ∷ olds) text = delete_each olds (delete_all old text)

unfoldable pub remove_markdown : Text → Text
unfolding delete_each
remove_markdown text = delete_each markdown text

-- `\s`
unfoldable pub is_re_space : ℕ → Bool
is_re_space c = c == 32 || c == 9 || c == 10 || c == 12 || c == 13

-- `\s+` replaced by one space; `inside` says that a run of white space has begun
unfoldable pub squeeze : Bool → Text → Text
unfolding is_re_space
squeeze inside [] = []
squeeze inside (c ∷ cs) =
    let skipped = squeeze true cs in
    let kept = c ∷ squeeze false cs in
    if is_re_space c then if inside then skipped else 32 ∷ skipped else kept

unfoldable pub trim_start : Text → Text
unfolding is_re_space
trim_start [] = []
trim_start (c ∷ cs) = if is_re_space c then trim_start cs else c ∷ cs

unfoldable pub trim_end : Text → Text
unfolding is_re_space
trim_end [] = []
trim_end (c ∷ cs) = elim (trim_end cs) [
  | [] ↦ if is_re_space c then [] else c ∷ []
  | d ∷ ds ↦ c ∷ d ∷ ds
]

module _ (kept : ℕ → Bool) where
  unfoldable pub remove_emojis : Text → Text
  remove_emojis [] = []
  remove_emojis (c ∷ cs) = let rest = remove_emojis cs in if kept c then c ∷ rest else rest

  unfoldable pub normalize_text_for_tts : Text → Text
  unfolding remove_markdown remove_emojis squeeze trim_start trim_end
  normalize_text_for_tts text =
      trim_end (trim_start (squeeze false (remove_emojis (remove_markdown text))))
