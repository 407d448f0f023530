-- ===== src/Themes.antt =====
-- apps/api/nps/themes.py: which templates an organization sees, and the choice of one for a plan.
pub mod Choice
use capstone_nps.Base.{
  ℕ, none, some, List, Bool, true, ◌==◌, nat_eq, not, leb, length, ◌&&◌, ◌∷◌, ◌++◌, Option, false,
  [], map, ◌||◌, if◌then◌else◌, contains, ltb,
}
use capstone_nps.Base.Errors.{◌>>◌, Result, raise, template_not_found, raise_if, ok, ◌>>=◌}
use capstone_nps.Models.{Template, Db, find_template}
use capstone_nps.Base.Rows.{select}
use capstone_nps.Base.Words.{Text, text, occurs, text_eq}
use capstone_nps.Contracts.{SlidePlanContract, PlannedSlide}
use capstone_nps.Auth.Accounts.{Project}

-- `or_(Template.org_id.is_(None), Template.org_id == org_id)`
abbrev pub is_visible : (org_id : ℕ) → Template → Bool
is_visible org_id t = elim t.org_id [ none ↦ true | some o ↦ o == org_id ]

unfoldable pub visible_templates : Db → (org_id : ℕ) → List Template
visible_templates db org_id = select (is_visible org_id) db.templates

unfoldable pub scoped_template : Db → (template_id org_id : ℕ) → Result Template
unfolding find_template
scoped_template db template_id org_id = elim (find_template template_id db) [
  | none ↦ raise template_not_found 404
  | some template ↦ do
    raise_if (not (is_visible org_id template)) template_not_found 404
    ok template
]

-- `[가-힣A-Za-z]`
abbrev is_letter : ℕ → Bool
is_letter c = leb 44032 c && leb c 55203 || leb 65 c && leb c 90 || leb 97 c && leb c 122

-- The longest runs of letters, and an empty text wherever there is none.
abbrev runs : Text → List Text
runs [] = [] ∷ []
runs (c ∷ rest) = elim (runs rest) [
  | [] ↦ [] ∷ []
  | r ∷ rs ↦ if is_letter c then (c ∷ r) ∷ rs else [] ∷ r ∷ rs
]

-- `re.findall(r"[가-힣A-Za-z]{2,}", text)`
unfoldable pub tokens_of : Text → List Text
tokens_of words = select (λ (r : Text). leb 2 (length r)) (runs words)

abbrev join_spaced : List Text → Text
join_spaced [] = []
join_spaced (t ∷ []) = t
join_spaced (t ∷ u ∷ rest) = t ++ 32 ∷ join_spaced (u ∷ rest)

abbrev pub content_of : SlidePlanContract → Text
content_of plan = plan.title ++ 32 ∷ join_spaced (map (λ (s : PlannedSlide). s.title) plan.slides)

abbrev is_text : Text → Option Text → Bool
is_text words none = false
is_text words (some t) = t == words

abbrev pub is_editorial : Template → Bool
is_editorial t = is_text (text "editorial-2") t.config.design_engine

-- `set(tags)`
abbrev distinct : List Text → List Text
distinct [] = []
distinct (t ∷ rest) = let seen = distinct rest in if contains t seen then seen else t ∷ seen

-- The tuple of `score`, in its order; a truth value counts 0 or 1, and times and ids compare as numbers.
unfoldable pub score : (content : Text) → Template → List ℕ
unfolding tokens_of
score content t =
    length (
      select (λ (tag : Text). occurs tag content || contains tag (tokens_of content))
        (distinct t.config.tags))
    ∷ (if is_text (text "uploaded-reference") t.config.source then 1 else 0)
    ∷ (if is_text (text "editorial-navy") t.config.slug then 1 else 0)
    ∷ t.created_at
    ∷ t.id
    ∷ []

-- `a < b` of tuples.
abbrev pub lex_lt : List ℕ → List ℕ → Bool
lex_lt [] [] = false
lex_lt [] (b ∷ bs) = true
lex_lt (a ∷ as_) [] = false
lex_lt (a ∷ as_) (b ∷ bs) = ltb a b || a == b && lex_lt as_ bs

-- `max(candidates, key=score)`: of equals, the first.
abbrev pub best_of : (content : Text) → Template → List Template → Template
best_of content best [] = best
best_of content best (t ∷ rest) =
    let better = best_of content t rest in
    let kept = best_of content best rest in
    if lex_lt (score content best) (score content t) then better else kept

-- The project's own template, if it has one of this engine.
unfoldable pub selected_theme : Project → Db → Result (Option Template)
unfolding scoped_template
selected_theme project db = elim project.template_id [
  | none ↦ ok none
  | some template_id ↦ do
    candidate ← scoped_template db template_id project.org_id
    ok (if is_editorial candidate then some candidate else none)
]

-- `lower` is `str.lower`.
unfoldable pub choose_theme :
    (lower : Text → Text) → Db → Project → SlidePlanContract → Result Template
unfolding visible_templates selected_theme score
choose_theme lower db project plan = do
  own ← selected_theme project db
  elim own [
    | some theme ↦ ok theme
    | none ↦ elim (select is_editorial (visible_templates db project.org_id)) [
      | [] ↦ raise template_not_found 404
      | t ∷ rest ↦ ok (best_of (lower (content_of plan)) t rest)
    ]
  ]
