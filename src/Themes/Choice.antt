-- ===== src/Themes/Choice.antt =====
-- Which theme `choose_theme` takes.
use capstone_nps.Base.{ℕ, List, ◌≡◌, All, false, true, some}
use capstone_nps.Base.Words.{Text}
use capstone_nps.Themes.{lex_lt, score, is_editorial, is_visible}
use capstone_nps.Models.{Template, Db, find_template}
use capstone_nps.Auth.Accounts.{Project}

-- No candidate beats the theme.
abbrev pub IsBest : (content : Text) → Template → List Template → Type 0
IsBest content theme candidates =
    All (λ t. lex_lt (score content theme) (score content t) ≡ false) candidates

-- The project names the template, and it is a theme of the present engine that its organization sees.
abbrev pub IsOwn : Project → Db → Template → Type 0
IsOwn project db own =
    (id : ℕ) × (project.template_id ≡ some id)
    × (find_template id db ≡ some own)
    × (is_editorial own ≡ true)
    × (is_visible project.org_id own ≡ true)
