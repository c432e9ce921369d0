-- ===== src/Searches/Editing/Exclusive.antt =====
-- Which edits of the form of frontend/src/components/panels/SearchPane.js fill both patterns: none.
use caronte.Prelude.{
  ◌≡◌, refl, ◌⊎◌, inl, inr, Bool, true, false, not, ◌&&◌, ◌||◌, [], ◌∷◌, Text, ◌==◌,
  list_comparable, nat_comparable, if◌then◌else◌,
}
use caronte.Fields.{check_handler}
use caronte.Searches.{TextSearch, SearchOptions}
use caronte.Searches.Editing.{
  text_options_modified, regex_options_modified, tags_readonly, phrase_readonly, pattern_readonly,
  not_pattern_readonly, Edit, term_added, term_deleted, excluded_added, excluded_deleted,
  exact_phrase, case_sensitive, pattern, not_pattern, case_insensitive, multi_line,
  ignore_whitespaces, dot_character, with_check, edit_text, edit_regex,
}

-- Of the two patterns only one is filled.
abbrev pub IsExclusive : SearchOptions → Type 0
IsExclusive o = (o.regex_search.pattern ≡ []) ⊎ (o.regex_search.not_pattern ≡ [])

-- A field that is for reading only leaves the options as they were.
open_or_same {ℓ κ} :
    {A : Type ℓ} (P : A → Type κ) (locked : Bool) (x y : A)
    → (locked ≡ false → P x)
    → P y
    → P (if locked then y else x)
open_or_same P true x y p q = q
open_or_same P false x y p q = p refl

empty_pattern : (v : Text) → not (v == []) ≡ false → v ≡ []
empty_pattern [] h = refl
empty_pattern (c ∷ v) h = cc

unlocked : (b c : Bool) → (b || c) ≡ false → c ≡ false
unlocked true c h = cc
unlocked false c h = h

-- A check box reports a change where it is not for reading only.
checked {ℓ} :
    (P : SearchOptions → Type ℓ) (locked b : Bool) (set : Bool → SearchOptions) (o : SearchOptions)
    → ((c : Bool) → P (set c))
    → P o
    → P (with_check (check_handler locked b) set o)
unfolding check_handler
checked P true b set o p q = q
checked P false b set o p q = p (not b)

-- An edit of the text half, whether or not the widget of the tags lets it through.
tags-IsExclusive :
    (o : SearchOptions) (locked : Bool) (t : TextSearch)
    → IsExclusive o
    → IsExclusive (if locked then o else record o { text_search = t })
tags-IsExclusive o locked t v =
    open_or_same IsExclusive locked (record o { text_search = t }) o (λ _. v) v

pub text-IsExclusive :
    (locks : Bool) (e : Edit) (o : SearchOptions)
    → IsExclusive o
    → IsExclusive (edit_text locks e o)
unfolding edit_text
text-IsExclusive locks (term_added t) o v = tags-IsExclusive o (locks && tags_readonly o) _ v
text-IsExclusive locks (term_deleted i) o v = tags-IsExclusive o (locks && tags_readonly o) _ v
text-IsExclusive locks (excluded_added t) o v = tags-IsExclusive o (locks && tags_readonly o) _ v
text-IsExclusive locks (excluded_deleted i) o v = tags-IsExclusive o (locks && tags_readonly o) _ v
text-IsExclusive locks (exact_phrase w) o v = tags-IsExclusive o (phrase_readonly o) _ v
text-IsExclusive locks case_sensitive o v =
    checked IsExclusive (regex_options_modified o) o.text_search.case_sensitive
      (λ b. record o { text_search = record (o.text_search) { case_sensitive = b } }) o (λ c. v) v
text-IsExclusive locks (pattern w) o v = v
text-IsExclusive locks (not_pattern w) o v = v
text-IsExclusive locks case_insensitive o v = v
text-IsExclusive locks multi_line o v = v
text-IsExclusive locks ignore_whitespaces o v = v
text-IsExclusive locks dot_character o v = v

-- A flag of the other half.
flag-IsExclusive :
    (o : SearchOptions) (b : Bool) (set : Bool → SearchOptions)
    → ((c : Bool) → IsExclusive (set c))
    → IsExclusive o
    → IsExclusive (with_check (check_handler (text_options_modified o) b) set o)
flag-IsExclusive o b set same v = checked IsExclusive (text_options_modified o) b set o same v

pub regex-IsExclusive :
    (e : Edit) (o : SearchOptions) → IsExclusive o → IsExclusive (edit_regex e o)
unfolding edit_regex pattern_readonly not_pattern_readonly
regex-IsExclusive (pattern w) o v =
    open_or_same IsExclusive (pattern_readonly o)
      (record o { regex_search = record (o.regex_search) { pattern = w } }) o
      (λ h. inr (empty_pattern _ (unlocked (text_options_modified o) _ h))) v
regex-IsExclusive (not_pattern w) o v =
    open_or_same IsExclusive (not_pattern_readonly o)
      (record o { regex_search = record (o.regex_search) { not_pattern = w } }) o
      (λ h. inl (empty_pattern _ (unlocked (text_options_modified o) _ h))) v
regex-IsExclusive case_insensitive o v = flag-IsExclusive o _ _ (λ c. v) v
regex-IsExclusive multi_line o v = flag-IsExclusive o _ _ (λ c. v) v
regex-IsExclusive ignore_whitespaces o v = flag-IsExclusive o _ _ (λ c. v) v
regex-IsExclusive dot_character o v = flag-IsExclusive o _ _ (λ c. v) v
regex-IsExclusive (term_added t) o v = v
regex-IsExclusive (term_deleted i) o v = v
regex-IsExclusive (excluded_added t) o v = v
regex-IsExclusive (excluded_deleted i) o v = v
regex-IsExclusive (exact_phrase w) o v = v
regex-IsExclusive case_sensitive o v = v
