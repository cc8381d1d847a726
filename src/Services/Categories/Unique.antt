-- ===== src/Services/Categories/Unique.antt =====
-- Codes and titles of one owner stay apart.
use remindo.Prelude.{
  ℕ, ◌≡◌, refl, sym, ◌∙◌, subst, Bool, true, false, not, ◌&&◌, Option, none, some, List, [], ◌∷◌,
  ◌++◌, arith, Text, text_eq, ◌==◌, if◌then◌else◌, all_of, Bool-cases, inl, inr,
}
use remindo.Time.{Moment}
use remindo.Contracts.{ok, err, ◌>>=◌, >>=-eq-ok, ok-injective, validation, category_in_use}
use remindo.Categories.{is_taken, next_free_code, normalize_category_title}
use remindo.Categories.Codes.{next_free_code_total}
use remindo.Db.{Db, Category}
use remindo.Db.Table.{update_where}
use remindo.Db.Insert.{NoClash}
use remindo.Db.Rows.{NoClash-update_where}
use remindo.Db.Categories.{id_of, owned_by, is_open, list_owned, list_codes, count_active_reminders}
use remindo.Services.Categories.{
  Unicode, has_title, reject_duplicate, own_category, new_category, add, create, set_title, rename,
  ArchiveResult, set_archived, archive_own, archive,
}

abbrev pub same_owner : Option ℕ → Option ℕ → Bool
same_owner none none = true
same_owner (some a) (some b) = a == b
same_owner _ _ = false

-- The unique key of the table: an owner's codes, archived categories included.
abbrev pub code_clash : Category → Category → Bool
code_clash a b = same_owner a.owner_id b.owner_id && text_eq a.code b.code

-- Two categories of one owner on the same list under the same title.
abbrev pub title_clash : Unicode → Category → Category → Bool
title_clash u a b =
    (same_owner a.owner_id b.owner_id && (is_open a.archived_at && is_open b.archived_at))
    && text_eq (u.casefold a.title) (u.casefold b.title)

append-NoClash :
    {A : Type 0} (clash : A → A → Bool) (n : A) (t : List A)
    → NoClash clash t
    → all_of (λ r. not (clash r n)) t ≡ true
    → NoClash clash (t ++ n ∷ [])
append-NoClash clash n [] c h = (refl, tt)
append-NoClash clash n (r ∷ t) c h = (apart t c.0, append-NoClash clash n t c.1 (ground arith))
  where
    apart :
        (s : List _)
        → all_of (λ x. not (clash r x)) s ≡ true
        → all_of (λ x. not (clash r x)) (s ++ n ∷ []) ≡ true
    apart [] k = ground arith
    apart (x ∷ s) k = ground (arith, apart s)

text_eq_sym : (s t : Text) → text_eq s t ≡ text_eq t s
text_eq_sym [] [] = refl
text_eq_sym [] (d ∷ t) = refl
text_eq_sym (c ∷ s) [] = refl
text_eq_sym (c ∷ s) (d ∷ t) = ground (arith, text_eq_sym s t)

owner_same : (user_id : ℕ) (o : Option ℕ) → same_owner o (some user_id) ≡ owned_by user_id o
owner_same user_id none = refl
owner_same user_id (some o) = refl

-- A code that none of the owner's categories has clashes with none of the table.
free_code :
    (user_id i : ℕ) (code title : Text) (t : List Category)
    → is_taken code (list_codes user_id t) ≡ false
    → all_of (λ c. not (code_clash c (new_category i user_id code title))) t ≡ true
unfolding list_codes is_taken
free_code user_id i code title [] h = refl
free_code user_id i code title (c ∷ t) h = elim (Bool-cases (owned_by user_id c.owner_id)) [
  | inl e ↦
      let listed : list_codes user_id (c ∷ t) ≡ c.code ∷ list_codes user_id t = rw e refl in
      let free : is_taken code (c.code ∷ list_codes user_id t) ≡ false =
        subst (λ l. is_taken code l ≡ false) listed h in
      let rest : is_taken code (list_codes user_id t) ≡ false = ground arith in
      let apart : text_eq c.code code ≡ false = text_eq_sym c.code code ∙ ground arith in
      rw (apart, free_code user_id i code title t rest) (ground arith)
  | inr e ↦
      let listed : list_codes user_id (c ∷ t) ≡ list_codes user_id t = rw e refl in
      let rest : is_taken code (list_codes user_id t) ≡ false =
        subst (λ l. is_taken code l ≡ false) listed h in
      let other : same_owner c.owner_id (some user_id) ≡ false =
        owner_same user_id c.owner_id ∙ e in
      rw (other, free_code user_id i code title t rest) refl
]

-- The same of a title.
free_title :
    (u : Unicode) (user_id i : ℕ) (code title : Text) (t : List Category)
    → has_title u title none (list_owned user_id t) ≡ false
    → all_of (λ c. not (title_clash u c (new_category i user_id code title))) t ≡ true
unfolding list_owned
free_title u user_id i code title [] h = refl
free_title u user_id i code title (c ∷ t) h =
    let p : Bool = owned_by user_id c.owner_id && is_open c.archived_at in
    let same : same_owner c.owner_id (some user_id) ≡ owned_by user_id c.owner_id =
      owner_same user_id c.owner_id in
    elim (Bool-cases p) [
      | inl e ↦
          let listed : list_owned user_id (c ∷ t) ≡ c ∷ list_owned user_id t = rw e refl in
          let free : has_title u title none (c ∷ list_owned user_id t) ≡ false =
            subst (λ l. has_title u title none l ≡ false) listed h in
          let rest : has_title u title none (list_owned user_id t) ≡ false = ground arith in
          let apart : text_eq (u.casefold c.title) (u.casefold title) ≡ false = ground arith in
          rw (apart, free_title u user_id i code title t rest) (ground arith)
      | inr e ↦
          let listed : list_owned user_id (c ∷ t) ≡ list_owned user_id t = rw e refl in
          let rest : has_title u title none (list_owned user_id t) ≡ false =
            subst (λ l. has_title u title none l ≡ false) listed h in
          let other : same_owner c.owner_id (some user_id) && (is_open c.archived_at && true)
              ≡ false =
            ground arith in
          rw (other, free_title u user_id i code title t rest) refl
    ]

-- No owner has two categories with one code, or two on the list under one title.
pub record KeysUnique (u : Unicode) (db : Db) : Type 0 where
  pub codes : NoClash code_clash db.categories
  pub titles : NoClash (title_clash u) db.categories

reject_duplicate-ok :
    (u : Unicode) (user_id : ℕ) (title : Text) (db : Db) {fine : Unit {0}}
    → reject_duplicate u user_id title none db ≡ ok fine
    → has_title u title none (list_owned user_id db.categories) ≡ false
unfolding reject_duplicate
reject_duplicate-ok u user_id title db h =
    elim (Bool-cases (has_title u title none (list_owned user_id db.categories))) [
      | inl e ↦ cc
      | inr e ↦ e
    ]

add-Unique :
    (u : Unicode) (user_id : ℕ) (code title : Text) (db : Db)
    → is_taken code (list_codes user_id db.categories) ≡ false
    → has_title u title none (list_owned user_id db.categories) ≡ false
    → KeysUnique u db
    → KeysUnique u (add user_id code title db).1
unfolding add
add-Unique u user_id code title db free fresh keys =
    let c = new_category db.next_category user_id code title in
    record {
      codes =
          append-NoClash code_clash c db.categories keys.codes
            (free_code user_id db.next_category code title db.categories free);
      titles =
          append-NoClash (title_clash u) c db.categories keys.titles
            (free_title u user_id db.next_category code title db.categories fresh);
    }

-- A category that is created gets a code that its owner does not have yet and, unless it is refused, a title that
-- is not on the owner's list yet: creating keeps both apart.
pub create-Unique :
    (u : Unicode) (user_id : ℕ) (title emoji : Text) (db : Db) {made : Category × Db}
    → KeysUnique u db
    → create u user_id title emoji db ≡ ok made
    → KeysUnique u made.1
unfolding create
create-Unique u user_id title emoji db {made} keys h =
    let codes = list_codes user_id db.categories in
    let named =
      >>=-eq-ok (normalize_category_title u.is_space title)
        (λ clean_title. (if u.is_emoji emoji then ok emoji else err validation) >>= λ clean_emoji.
          reject_duplicate u user_id clean_title none db >>= λ fine.
          next_free_code (u.slugify_code clean_title) codes >>= λ code.
          ok (add user_id code clean_title db))
        h in
    let shown =
      >>=-eq-ok (if u.is_emoji emoji then ok emoji else err validation)
        (λ clean_emoji. reject_duplicate u user_id named.0 none db >>= λ fine.
          next_free_code (u.slugify_code named.0) codes >>= λ code.
          ok (add user_id code named.0 db))
        named.2 in
    let fresh =
      >>=-eq-ok (reject_duplicate u user_id named.0 none db)
        (λ fine. next_free_code (u.slugify_code named.0) codes >>= λ code.
          ok (add user_id code named.0 db))
        shown.2 in
    let coded =
      >>=-eq-ok (next_free_code (u.slugify_code named.0) codes)
        (λ code. ok (add user_id code named.0 db)) fresh.2 in
    let total = next_free_code_total (u.slugify_code named.0) codes in
    let same : total.0 ≡ coded.0 = ok-injective (sym total.1 ∙ coded.1) in
    let free : is_taken coded.0 codes ≡ false =
      subst (λ c. is_taken c codes ≡ false) same total.2 in
    let done : add user_id coded.0 named.0 db ≡ made = ok-injective coded.2 in
    subst (λ m. KeysUnique u m.1) done
      (add-Unique u user_id coded.0 named.0 db free
        (reject_duplicate-ok u user_id named.0 db {fine = fresh.0} fresh.1) keys)

-- A new title or a mark on a row leaves the codes as they are.
edit_codes :
    (i : ℕ) (f : Category → Category) (t : List Category)
    → ((c : Category) → (f c).owner_id ≡ c.owner_id)
    → ((c : Category) → (f c).code ≡ c.code)
    → NoClash code_clash t
    → NoClash code_clash (update_where (λ c. id_of c == i) f t)
edit_codes i f t owner code keys =
    NoClash-update_where code_clash (λ c. id_of c == i) f (λ r s. rw (owner r, code r) refl)
      (λ r s. rw (owner s, code s) refl) t keys

-- Renaming and archiving keep the codes of every owner apart.
pub rename-codes :
    (u : Unicode) (user_id category_id : ℕ) (title : Text) (db : Db) {renamed : Category × Db}
    → NoClash code_clash db.categories
    → rename u user_id category_id title db ≡ ok renamed
    → NoClash code_clash renamed.1.categories
unfolding rename set_title
rename-codes u user_id category_id title db {renamed} keys h =
    let own =
      >>=-eq-ok (own_category user_id category_id false db)
        (λ c. normalize_category_title u.is_space title >>= λ clean_title.
          reject_duplicate u user_id clean_title (some c.id) db >>= λ fine.
          ok (record c { title = clean_title }, set_title c.id clean_title db))
        h in
    let named =
      >>=-eq-ok (normalize_category_title u.is_space title)
        (λ clean_title. reject_duplicate u user_id clean_title (some own.0.id) db >>= λ fine.
          ok (record own.0 { title = clean_title }, set_title own.0.id clean_title db))
        own.2 in
    let fresh =
      >>=-eq-ok (reject_duplicate u user_id named.0 (some own.0.id) db)
        (λ fine. ok (record own.0 { title = named.0 }, set_title own.0.id named.0 db)) named.2 in
    subst (λ m. NoClash code_clash m.1.categories) (ok-injective fresh.2)
      (edit_codes own.0.id (λ c. record c { title = named.0 }) db.categories (λ c. refl) (λ c. refl)
        keys)

one_of_two :
    {A : Type 0} (P : A → Type 0) (a b : Bool) (x y : A) {r : A}
    → (if a then ok x else if b then err category_in_use else ok y) ≡ ok r
    → P x
    → P y
    → P r
one_of_two P true b x y h p q = subst P (ok-injective h) p
one_of_two P false true x y h p q = cc
one_of_two P false false x y h p q = subst P (ok-injective h) q

pub archive-codes :
    (user_id category_id : ℕ) (now : Moment) (db : Db) {done : ArchiveResult × Db}
    → NoClash code_clash db.categories
    → archive user_id category_id now db ≡ ok done
    → NoClash code_clash done.1.categories
unfolding archive archive_own set_archived
archive-codes user_id category_id now db {done} keys h =
    let own = >>=-eq-ok (own_category user_id category_id true db) (λ c. archive_own now c db) h in
    let c : Category = own.0 in
    one_of_two (λ m. NoClash code_clash m.1.categories) (not (is_open c.archived_at))
      (not (count_active_reminders c.id db.reminders == 0))
      (record { applied = false; category = c }, db)
      (
        record { applied = true; category = record c { archived_at = some now } },
        set_archived c.id now db,
      )
      own.2 keys
      (edit_codes c.id (λ x. record x { archived_at = some now }) db.categories (λ x. refl)
        (λ x. refl) keys)
