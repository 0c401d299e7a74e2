-- ===== src/Db/GuidesGone.antt =====
-- A guide that was removed on the database stays removed.
use jianghu_scrm.Prelude.{
  any, Bool, String, List, ◌≡◌, ◌==◌, ℕ, true, ◌∷◌, Bool-cases, false, All, ◌++◌, refl, arith, inl,
  inr, eq_iff, All-append, [], never,
}
use jianghu_scrm.Db.Tables.{update_where}
use jianghu_scrm.Db.Guides.{
  put_code, remove_row, GuideTables, DbGuide, guide_employment_status_from_db, pause_row,
  destroy_code, StoreCode, is_code_of, is_row, reuse_code,
}

-- Each row of the guide is removed and paused.
abbrev pub IsRetired : String → DbGuide → Type 0
IsRetired k g = is_row k g ≡ true → (g.employment_status ≡ "removed") × (g.paused ≡ true)

-- A code that is the guide's is not active.
abbrev pub IsIdle : String → StoreCode → Type 0
IsIdle k c = is_code_of k c ≡ true → (c.status == "active") ≡ false

pub record IsGone (k : String) (db : GuideTables) : Type 0 where
  pub there : any (is_row k) db.guides ≡ true
  pub guides : All (IsRetired k) db.guides
  pub codes : All (IsIdle k) db.store_codes

module _ {A : Type 0} where
  All-update_where :
      (P : A → Type 0) (p : A → Bool) (f : A → A) (xs : List A)
      → ((x : A) → p x ≡ true → P x → P (f x))
      → All P xs
      → All P (update_where p f xs)
  unfolding update_where
  All-update_where P p f [] step a = tt
  All-update_where P p f (x ∷ xs) step a = elim (Bool-cases (p x)) [
    | inl e ↦ rw e (step x e a.0, All-update_where P p f xs step a.1)
    | inr e ↦ rw e (a.0, All-update_where P p f xs step a.1)
  ]

  -- an UPDATE of all rows that the claim is about
  pub All-update_each :
      (P : A → Type 0) (p : A → Bool) (f : A → A) (xs : List A)
      → ((x : A) → p x ≡ true → P (f x))
      → ((x : A) → p x ≡ false → P x)
      → All P (update_where p f xs)
  unfolding update_where
  All-update_each P p f [] step stay = tt
  All-update_each P p f (x ∷ xs) step stay = elim (Bool-cases (p x)) [
    | inl e ↦ rw e (step x e, All-update_each P p f xs step stay)
    | inr e ↦ rw e (stay x e, All-update_each P p f xs step stay)
  ]

  pub any-update_where :
      (q p : A → Bool) (f : A → A) (xs : List A)
      → ((x : A) → q (f x) ≡ q x)
      → any q (update_where p f xs) ≡ any q xs
  unfolding update_where any
  any-update_where q p f [] same = refl
  any-update_where q p f (x ∷ xs) same = elim (Bool-cases (p x)) [
    | inl e ↦ rw (e, same x, any-update_where q p f xs same) refl
    | inr e ↦ rw (e, any-update_where q p f xs same) refl
  ]

  pub any-append : (q : A → Bool) (xs ys : List A) → any q xs ≡ true → any q (xs ++ ys) ≡ true
  unfolding any
  any-append q [] ys h = absurd (cc)
  any-append q (x ∷ xs) ys h = elim (Bool-cases (q x)) [
    | inl e ↦ rw e refl
    | inr e ↦ let more : any q xs ≡ true = rw e at h in rw (e, any-append q xs ys more) refl
  ]

  pub any-free :
      (q p : A → Bool) (xs : List A)
      → any q xs ≡ true
      → any p xs ≡ false
      → ((x : A) → q x ≡ true → p x ≡ false → ⊥)
      → ⊥
  unfolding any
  any-free q p [] h n c = cc
  any-free q p (x ∷ xs) h n c = elim (Bool-cases (q x)) [
    | inl e ↦ elim (Bool-cases (p x)) [ inl f ↦ ground (arith, n, f) | inr f ↦ c x e f ]
    | inr e ↦ any-free q p xs (ground (arith, h, e)) (ground (arith, n)) c
  ]

module _ (k : String) where
  -- A guide that may be paused is another one.
  pub other :
      (g : DbGuide)
      → IsRetired k g
      → (guide_employment_status_from_db g.employment_status == "已移除") ≡ false
      → is_row k g ≡ false
  unfolding guide_employment_status_from_db
  other g out unlocked = elim (Bool-cases (is_row k g)) [
    | inl e ↦ absurd (never _ (rw ((out e).0) refl) unlocked)
    | inr e ↦ e
  ]

  pub pause-IsRetired :
      (now : ℕ) (paused : Bool) (g : DbGuide) (gs : List DbGuide)
      → is_row k g ≡ false
      → All (IsRetired k) gs
      → All (IsRetired k) (update_where (is_row g.id) (pause_row now paused) gs)
  unfolding pause_row is_row
  pause-IsRetired now paused g gs apart a =
      All-update_where (IsRetired k) (is_row g.id) (pause_row now paused) gs
        (λ x e _ m.
          absurd (ground (arith, e, m, apart, eq_iff x.id g.id, eq_iff x.id k, eq_iff g.id k)))
        a

  pub remove-IsRetired :
      (now : ℕ) (id : String) (gs : List DbGuide)
      → All (IsRetired k) gs
      → All (IsRetired k) (update_where (is_row id) (remove_row now) gs)
  unfolding remove_row
  remove-IsRetired now id gs a =
      All-update_where (IsRetired k) (is_row id) (remove_row now) gs (λ x e _ m. (refl, refl)) a

  pub destroy-IsIdle :
      (now : ℕ) (id : String) (cs : List StoreCode)
      → All (IsIdle k) cs
      → All (IsIdle k) (update_where (is_code_of id) (destroy_code now) cs)
  unfolding destroy_code
  destroy-IsIdle now id cs a =
      All-update_where (IsIdle k) (is_code_of id) (destroy_code now) cs (λ x e _ m. refl) a

  pub put_code-IsIdle :
      (fresh : StoreCode) (cs : List StoreCode)
      → (fresh.staff_id == k) ≡ false
      → All (IsIdle k) cs
      → All (IsIdle k) (put_code fresh cs)
  unfolding put_code reuse_code is_code_of
  put_code-IsIdle fresh cs apart a = elim (Bool-cases (any (λ c. c.id == fresh.id) cs)) [
    | inl e ↦ rw e (
        All-update_where (IsIdle k) (λ c. c.id == fresh.id) (reuse_code fresh) cs
          (λ x _ _ m. absurd (ground (arith, m, apart))) a)
    | inr e ↦
        rw e
          (All-append (IsIdle k) cs (fresh ∷ []) a ((λ m. absurd (ground (arith, m, apart))), tt))
  ]
