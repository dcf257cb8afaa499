-- ===== src/Auth/Laws/Admins.antt =====
-- No route leaves the table without an active admin.
use mathlib.Core.Path.{subst}
use slope_monitoring.Common.{
  Bool, ℕ, suc, ◌≤◌, String, ◌≡◌, refl, sym, ap, ◌∙◌, inl, inr, true, false, not, ◌&&◌, Option,
  none, some, List, [], ◌∷◌, leb, ◌==◌, str_eq, arith, Bool-cases, some-injective,
}
use slope_monitoring.Common.Text.{text_eq}
use slope_monitoring.Errors.{Result, ok, err}
use slope_monitoring.Auth.Accounts.{
  answered, User, Accounts, get_by_id, update_user, is_active_admin, count_active_admins, id_of,
  user_of, record_entry, set_role, set_disabled, update_role, disable,
}
use slope_monitoring.Auth.Routes.{
  is_admin, then_entry, change_role, update_user_role, disable_recorded, disable_written,
  disable_found, disable_user,
}

-- the ids of the table differ from `id`
abbrev Absent : ℕ → List User → Type 0
Absent id us = get_by_id id us ≡ none

-- a primary key: no id twice
abbrev pub IdsUnique : List User → Type 0
IdsUnique [] = Unit
IdsUnique (u ∷ us) = Absent u.user_id us × IdsUnique us

update_user-Absent :
    (id : ℕ) (f : User → User) (us : List User)
    → Absent id us
    → count_active_admins (update_user id f us) ≡ count_active_admins us
unfolding get_by_id update_user count_active_admins
update_user-Absent id f [] h = refl
update_user-Absent id f (u ∷ us) h = ground (arith, update_user-Absent id f us)

-- a change of one row takes away at most one active admin
update_user-one :
    (id : ℕ) (f : User → User) (us : List User)
    → IdsUnique us
    → count_active_admins us ≤ suc (count_active_admins (update_user id f us))
unfolding update_user count_active_admins
update_user-one id f [] h = omega arith
update_user-one id f (u ∷ us) h = elim (Bool-cases (u.user_id == id)) [
  | inl e ↦
      let same : u.user_id ≡ id = ground (arith, e) in
      let rest = update_user-Absent id f us (subst (λ x. Absent x us) same h.0) in
      ground (arith, e, rest)
  | inr e ↦ ground (arith, e, update_user-one id f us h.1)
]

get_by_id-update_other :
    (id other : ℕ) (f : User → User) (us : List User)
    → other == id ≡ false
    → ((u : User) → (f u).user_id ≡ u.user_id)
    → get_by_id other (update_user id f us) ≡ get_by_id other us
unfolding get_by_id update_user
get_by_id-update_other id other f [] h keeps = refl
get_by_id-update_other id other f (u ∷ us) h keeps =
    ground (arith, keeps u, get_by_id-update_other id other f us h keeps)

get_by_id-update_user :
    (id : ℕ) (f : User → User) (us : List User) {u : User}
    → ((v : User) → (f v).user_id ≡ v.user_id)
    → get_by_id id us ≡ some u
    → get_by_id id (update_user id f us) ≡ some (f u)
unfolding get_by_id update_user
get_by_id-update_user id f [] keeps h = absurd (ground arith)
get_by_id-update_user id f (v ∷ us) {u} keeps h = elim (Bool-cases (v.user_id == id)) [
  | inl e ↦
      let same : v ≡ u = some-injective (sym (rw e refl) ∙ h) in
      ground (arith, keeps v, ap f same, e)
  | inr e ↦
      let rest = get_by_id-update_user id f us {u = u} keeps (ground (arith, e)) in
      ground (arith, e, rest)
]

-- an account that is found and active counts
active_counts :
    (id : ℕ) (us : List User) {u : User}
    → get_by_id id us ≡ some u
    → is_active_admin u ≡ true
    → 1 ≤ count_active_admins us
unfolding get_by_id count_active_admins
active_counts id [] h active = absurd (ground arith)
active_counts id (v ∷ us) {u} h active = elim (Bool-cases (v.user_id == id)) [
  | inl e ↦
      let same : v ≡ u = some-injective (sym (rw e refl) ∙ h) in
      let v_active : is_active_admin v ≡ true = ap is_active_admin same ∙ active in
      ground (arith, v_active)
  | inr e ↦
      let rest = active_counts id us {u = u} (ground (arith, e)) active in ground (arith, rest)
]

-- disabling an account that is no admin changes no count
update_user-set_disabled :
    (id now : ℕ) (us : List User)
    → IdsUnique us
    → is_admin (get_by_id id us) ≡ false
    → count_active_admins (update_user id (set_disabled now) us) ≡ count_active_admins us
unfolding get_by_id update_user count_active_admins is_admin is_active_admin set_disabled
update_user-set_disabled id now [] h plain = refl
update_user-set_disabled id now (u ∷ us) h plain = elim (Bool-cases (u.user_id == id)) [
  | inl e ↦
      let same : u.user_id ≡ id = ground (arith, e) in
      let rest = update_user-Absent id (set_disabled now) us (subst (λ x. Absent x us) same h.0) in
      ground (arith, e, rest)
  | inr e ↦ ground (arith, e, update_user-set_disabled id now us h.1)
]

disabled_count :
    (id now : ℕ) (us : List User)
    → IdsUnique us
    → 1 ≤ count_active_admins us
    → is_admin (get_by_id id us) && leb (count_active_admins us) 1 ≡ false
    → 1 ≤ count_active_admins (update_user id (set_disabled now) us)
disabled_count id now us unique some_admin guard = elim (Bool-cases (is_admin (get_by_id id us))) [
  | inl e ↦ ground (arith, e, update_user-one id (set_disabled now) us unique)
  | inr e ↦ ground (arith, e, update_user-set_disabled id now us unique)
]

disable_found-keeps_admin :
    (accepts : List ℕ → Bool) (now : ℕ) (actor user_id : List ℕ) (a : Accounts)
    (o : Result (Option ℕ))
    → IdsUnique a.users
    → 1 ≤ count_active_admins a.users
    → 1 ≤ count_active_admins (disable_found accepts now actor user_id a o).1.users
unfolding disable_found disable_recorded disable_written disable record_entry user_of
disable_found-keeps_admin accepts now actor user_id a (err e) unique h = h
disable_found-keeps_admin accepts now actor user_id a (ok none) unique h = ground arith
disable_found-keeps_admin accepts now actor user_id a (ok (some id)) unique h =
    ground (arith, disabled_count id now a.users unique h)

-- In a table with no id twice: if there is an active admin, there is one after any call of the route that disables an account,
-- whoever calls it and whatever id is given, and whether or not the audit table takes the entry.
pub disable_user-keeps_admin :
    (accepts : List ℕ → Bool) (now : ℕ) (actor user_id : List ℕ) (a : Accounts)
    → IdsUnique a.users
    → 1 ≤ count_active_admins a.users
    → 1 ≤ count_active_admins (disable_user accepts now actor user_id a).1.users
unfolding disable_user
disable_user-keeps_admin accepts now actor user_id a unique h =
    ground (arith, disable_found-keeps_admin accepts now actor user_id a (id_of user_id) unique h)

set_role-keeps_id : (role : String) (u : User) → (set_role role u).user_id ≡ u.user_id
unfolding set_role
set_role-keeps_id role u = refl

-- the count after a change of the role of `id`, called by the active admin `actor`
role_count :
    (id actor : ℕ) (role : String) (us : List User) {u : User}
    → IdsUnique us
    → get_by_id actor us ≡ some u
    → is_active_admin u ≡ true
    → ((actor == id) && not (str_eq role "admin")) && leb (count_active_admins us) 1 ≡ false
    → 1 ≤ count_active_admins (update_user id (set_role role) us)
role_count id actor role us {u} unique found active guard = elim (Bool-cases (actor == id)) [
  | inr e ↦
      let still = get_by_id-update_other id actor (set_role role) us e (set_role-keeps_id role) in
      active_counts actor (update_user id (set_role role) us) (still ∙ found) active
  | inl e ↦ elim (Bool-cases (str_eq role "admin")) [
    | inr n ↦ ground (arith, e, n, update_user-one id (set_role role) us unique)
    | inl y ↦
        let same : actor ≡ id = ground (arith, e) in
        let now_found =
          get_by_id-update_user id (set_role role) us (set_role-keeps_id role)
            (subst (λ x. get_by_id x us ≡ some u) same found) in
        active_counts id (update_user id (set_role role) us) now_found
          (unfold is_active_admin set_role in ground (arith, active, y))
  ]
]

change_role-keeps_admin :
    (accepts : List ℕ → Bool) (actor_id : ℕ) (actor user_id : List ℕ) (role : String) (a : Accounts)
    (o : Result (Option ℕ)) {u : User}
    → IdsUnique a.users
    → get_by_id actor_id a.users ≡ some u
    → is_active_admin u ≡ true
    → (o ≡ ok (some actor_id) → text_eq user_id actor ≡ true)
    → 1 ≤ count_active_admins (change_role accepts actor user_id role a o).1.users
unfolding change_role then_entry answered update_role record_entry user_of
change_role-keeps_admin accepts actor_id actor user_id role a (err e) unique found active
      canonical =
    active_counts actor_id a.users found active
change_role-keeps_admin accepts actor_id actor user_id role a (ok none) unique found active
      canonical =
    let now_one = active_counts actor_id a.users found active in ground (arith, now_one)
change_role-keeps_admin accepts actor_id actor user_id role a (ok (some id)) {u} unique found active
      canonical =
    let now_one = active_counts actor_id a.users found active in
    elim (Bool-cases (actor_id == id)) [
      | inr e ↦
          let after = role_count id actor_id role a.users unique found active (ground (arith, e)) in
          ground (arith, after, now_one)
      | inl e ↦
          let same : actor_id ≡ id = ground (arith, e) in
          let typed : text_eq user_id actor ≡ true = canonical (ap (λ x. ok (some x)) (sym same)) in
          let admin : is_admin (get_by_id id a.users) ≡ true =
            subst (λ x. is_admin (get_by_id x a.users) ≡ true) same
              (unfold is_admin is_active_admin in ground (arith, found, active)) in
          ground (
            arith,
            typed,
            admin,
            now_one,
            e,
            role_count id actor_id role a.users unique found active,
          )
    ]

-- In a table with no id twice: a change of a role by an active admin leaves an active admin, himself or another, if the id of the
-- request, where it is the number of his own, is also the text of his session; whether or not the
-- audit table takes the entry.
pub update_user_role-keeps_admin :
    (accepts : List ℕ → Bool) (actor_id : ℕ) (actor user_id : List ℕ) (role : String) (a : Accounts)
    {u : User}
    → IdsUnique a.users
    → get_by_id actor_id a.users ≡ some u
    → is_active_admin u ≡ true
    → (id_of user_id ≡ ok (some actor_id) → text_eq user_id actor ≡ true)
    → 1 ≤ count_active_admins (update_user_role accepts actor user_id role a).1.users
unfolding update_user_role
update_user_role-keeps_admin accepts actor_id actor user_id role a unique found active canonical =
    let now_one = active_counts actor_id a.users found active in
    let after =
      change_role-keeps_admin accepts actor_id actor user_id role a (id_of user_id) unique found
        active canonical in
    ground (arith, now_one, after)
