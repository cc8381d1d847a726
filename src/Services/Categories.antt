-- ===== src/Services/Categories.antt =====
-- app/services/categories.py. The texts' rules that rest on Unicode are parameters, and so is whether
-- `normalize_emoji` takes the emoji, which is not kept.
pub mod Unique
use remindo.Prelude.{
  ℕ, ◌+◌, Bool, true, false, not, ◌&&◌, Option, none, some, List, [], ◌∷◌, ◌++◌, Text, text_eq,
  ◌==◌, if◌then◌else◌,
}
use remindo.Time.{Moment}
use remindo.Contracts.{
  Result, err, ok, ◌>>=◌, not_found, permission_denied, category_in_use, category_exists,
  validation,
}
use remindo.Categories.{normalize_category_title, next_free_code}
use remindo.Db.{Db, Category}
use remindo.Db.Table.{update, update_where}
use remindo.Db.Categories.{
  id_of, owned_by, is_open, get_by_id, list_owned, list_codes, count_active_reminders,
}

-- `str.isspace`, `str.casefold`, `slugify_code` and the check of `normalize_emoji`.
pub record Unicode : Type 0 where
  pub is_space : ℕ → Bool
  pub casefold : Text → Text
  pub slugify_code : Text → Text
  pub is_emoji : Text → Bool

abbrev pub is_preset : Option ℕ → Bool
is_preset none = true
is_preset (some o) = false

abbrev pub for_user : ℕ → Option Category → Result Category
for_user user_id none = err not_found
for_user user_id (some c) =
    if not (is_open c.archived_at)
    then err not_found
    else if is_preset c.owner_id
    then ok c
    else if owned_by user_id c.owner_id
    then ok c
    else err permission_denied

unfoldable pub get_for_user : ℕ → ℕ → Db → Result Category
unfolding get_by_id
get_for_user user_id category_id db = for_user user_id (get_by_id category_id db.categories)

abbrev pub same_id : Option ℕ → ℕ → Bool
same_id none i = false
same_id (some e) i = e == i

-- One of the listed categories has the title, apart from `exclude_id`.
abbrev pub has_title : Unicode → Text → Option ℕ → List Category → Bool
has_title u title exclude_id [] = false
has_title u title exclude_id (c ∷ t) =
    let rest = has_title u title exclude_id t in
    if not (same_id exclude_id c.id) && text_eq (u.casefold c.title) (u.casefold title)
    then true
    else rest

-- `_reject_duplicate`
unfoldable pub reject_duplicate : Unicode → ℕ → Text → Option ℕ → Db → Result (Unit {0})
unfolding list_owned
reject_duplicate u user_id title exclude_id db =
    if has_title u title exclude_id (list_owned user_id db.categories)
    then err category_exists
    else ok tt

abbrev pub own_of : ℕ → Bool → Option Category → Result Category
own_of user_id allow_archived none = err not_found
own_of user_id allow_archived (some c) =
    if not (is_open c.archived_at) && not allow_archived
    then err not_found
    else if is_preset c.owner_id
    then err permission_denied
    else if owned_by user_id c.owner_id
    then ok c
    else err permission_denied

-- `_own_category`
unfoldable pub own_category : ℕ → ℕ → Bool → Db → Result Category
unfolding get_by_id
own_category user_id category_id allow_archived db =
    own_of user_id allow_archived (get_by_id category_id db.categories)

abbrev pub new_category : ℕ → ℕ → Text → Text → Category
new_category i user_id code title = record {
  id = i;
  owner_id = some user_id;
  code = code;
  title = title;
  archived_at = none;
}

-- `CategoriesRepository.add`
unfoldable pub add : ℕ → Text → Text → Db → Category × Db
add user_id code title db =
    let c = new_category db.next_category user_id code title in
    (c, record db { categories = db.categories ++ c ∷ []; next_category = db.next_category + 1 })

unfoldable pub create : Unicode → ℕ → Text → Text → Db → Result (Category × Db)
unfolding normalize_category_title reject_duplicate next_free_code list_codes add
create u user_id title emoji db = normalize_category_title u.is_space title >>= λ clean_title.
    (if u.is_emoji emoji then ok emoji else err validation) >>= λ clean_emoji.
    reject_duplicate u user_id clean_title none db >>= λ fine.
    next_free_code (u.slugify_code clean_title) (list_codes user_id db.categories) >>= λ code.
    ok (add user_id code clean_title db)

unfoldable pub set_title : ℕ → Text → Db → Db
unfolding update_where
set_title i title db = record db {
  categories = update id_of i (λ c. record c { title = title }) db.categories;
}

unfoldable pub rename : Unicode → ℕ → ℕ → Text → Db → Result (Category × Db)
unfolding own_category normalize_category_title reject_duplicate set_title
rename u user_id category_id title db = own_category user_id category_id false db >>= λ c.
    normalize_category_title u.is_space title >>= λ clean_title.
    reject_duplicate u user_id clean_title (some c.id) db >>= λ fine.
    ok (record c { title = clean_title }, set_title c.id clean_title db)

pub record ArchiveResult : Type 0 where
  pub applied : Bool
  pub category : Category

unfoldable pub set_archived : ℕ → Moment → Db → Db
unfolding update_where
set_archived i now db = record db {
  categories = update id_of i (λ c. record c { archived_at = some now }) db.categories;
}

abbrev pub archive_own : Moment → Category → Db → Result (ArchiveResult × Db)
unfolding count_active_reminders set_archived
archive_own now c db =
    if not (is_open c.archived_at)
    then ok (record { applied = false; category = c }, db)
    else if not (count_active_reminders c.id db.reminders == 0)
    then err category_in_use
    else ok (
      record { applied = true; category = record c { archived_at = some now } },
      set_archived c.id now db,
    )

unfoldable pub archive : ℕ → ℕ → Moment → Db → Result (ArchiveResult × Db)
unfolding own_category
archive user_id category_id now db =
    own_category user_id category_id true db >>= λ c. archive_own now c db
