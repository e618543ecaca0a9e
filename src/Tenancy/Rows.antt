-- ===== src/Tenancy/Rows.antt =====
-- Properties of all rows of `workspaces` and of `apps` that a lookup finds and a write keeps.
use rustbase.Base.{
  Str, str_eq, str_eq_iff, ◌≡◌, ◌≢◌, refl, arith, Bool-cases, inl, inr, some, List, [], ◌∷◌, All,
  subst,
}
use rustbase.Tenancy.{App, Workspace, find_workspace, find_app, put_workspace, put_app}

module _ {J : Type 0} (P : Workspace J → Type 0) where
  pub All-find_workspace :
      (id : Str) (ws : List (Workspace J)) (w : Workspace J)
      → All P ws
      → find_workspace id ws ≡ some w
      → P w
  unfolding find_workspace
  All-find_workspace id [] w h e = cc
  All-find_workspace id (v ∷ vs) w h e = elim (Bool-cases (str_eq v.id id)) [
    | inl m ↦ subst P (cc (rw m at e)) h.0
    | inr m ↦ All-find_workspace id vs w h.1 (rw m at e)
  ]

  pub All-put_workspace :
      (w : Workspace J) (ws : List (Workspace J)) → P w → All P ws → All P (put_workspace w ws)
  unfolding put_workspace
  All-put_workspace w [] p h = tt
  All-put_workspace w (v ∷ vs) p h = elim (Bool-cases (str_eq v.id w.id)) [
    | inl m ↦ rw m (p, All-put_workspace w vs p h.1)
    | inr m ↦ rw m (h.0, All-put_workspace w vs p h.1)
  ]

module _ {J : Type 0} (P : App J → Type 0) where
  pub All-find_app :
      (id : Str) (apps : List (App J)) (a : App J) → All P apps → find_app id apps ≡ some a → P a
  unfolding find_app
  All-find_app id [] a h e = cc
  All-find_app id (b ∷ bs) a h e = elim (Bool-cases (str_eq b.id id)) [
    | inl m ↦ subst P (cc (rw m at e)) h.0
    | inr m ↦ All-find_app id bs a h.1 (rw m at e)
  ]

  pub All-put_app : (a : App J) (apps : List (App J)) → P a → All P apps → All P (put_app a apps)
  unfolding put_app
  All-put_app a [] p h = tt
  All-put_app a (b ∷ bs) p h = elim (Bool-cases (str_eq b.id a.id)) [
    | inl m ↦ rw m (p, All-put_app a bs p h.1)
    | inr m ↦ rw m (h.0, All-put_app a bs p h.1)
  ]

module _ {J : Type 0} where
  -- The row that a lookup finds has the identifier.
  pub id-find_workspace :
      (id : Str) (ws : List (Workspace J)) (w : Workspace J)
      → find_workspace id ws ≡ some w
      → w.id ≡ id
  unfolding find_workspace
  id-find_workspace id [] w e = cc
  id-find_workspace id (v ∷ vs) w e = ground (arith, str_eq_iff v.id id, id-find_workspace id vs w)

  -- A write leaves the rows of other identifiers.
  pub find_workspace-put_workspace_ne :
      (w : Workspace J) (id : Str) (ws : List (Workspace J))
      → w.id ≢ id
      → find_workspace id (put_workspace w ws) ≡ find_workspace id ws
  unfolding find_workspace put_workspace
  find_workspace-put_workspace_ne w id [] n = refl
  find_workspace-put_workspace_ne w id (v ∷ vs) n = ground (
    arith,
    str_eq_iff v.id w.id,
    str_eq_iff v.id id,
    str_eq_iff w.id id,
    find_workspace-put_workspace_ne w id vs,
  )
