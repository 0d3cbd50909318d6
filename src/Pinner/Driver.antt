-- ===== src/Pinner/Driver.antt =====
-- Any sequence of opens, commands and releases, from loading to removal: no page reference or block of
-- memory but page arrays is lost or given back twice.
use mpsoc_axidma.Base.{
  ℕ, ◌+◌, ◌-◌, ◌≤◌, ◌≡◌, ◌≢◌, refl, true, false, ◌∙◌, ap, sym, Bool, List, [], ◌∷◌, Option, none,
  some, ◌==◌, if◌then◌else◌, inl, inr, arith, Bool-cases, Option-cases,
}
use mathlib.Core.Option.{some-injective}
use mpsoc_axidma.PinnerApi.{PinnerCmd}
use mpsoc_axidma.Pinner.{Page, Pinning, ProcInfo}
use mpsoc_axidma.Pinner.Memory.{Resource, page_array, proc_block, Holdings, one}
use mpsoc_axidma.Pinner.Files.{
  Driver, free_user, free_users, pinner_init, pinner_open, pinner_release, pinner_exit, take_user,
}
use mpsoc_axidma.Pinner.Ops.{
  Replies, free_pinning, Reply, Outcome, returns, bad_pointer, free_pinnings, pinner_write,
}
use mpsoc_axidma.Pinner.Account.{
  held, KeepsPages, Balanced, balanced, crashed, pinner_write-Balanced,
}

-- `filp->private_data`: the user at the address.
unfoldable pub find_user : ℕ → List ProcInfo → Option ProcInfo
find_user id [] = none
find_user id (u ∷ us) = let rest = find_user id us in if id == u.id then some u else rest

-- A command changes its user in place.
unfoldable pub update_user : ℕ → ProcInfo → List ProcInfo → List ProcInfo
update_user id u' [] = []
update_user id u' (u ∷ us) =
    let rest = update_user id u' us in if id == u.id then u' ∷ us else u ∷ rest

module _ (page_to_phys : Page → ℕ) where
  -- A call of `write` on the file of the user at `id`; `none` is a step on an invalid pointer.
  unfoldable pub write_request :
      Replies → PinnerCmd → (sz id : ℕ) → Driver → Option (Reply × Driver)
  unfolding find_user pinner_write update_user
  write_request r c sz id d = elim (find_user id d.users) [
    | none ↦ none
    | some u ↦ elim (pinner_write page_to_phys r true c sz u d.refs) [
      | bad_pointer ↦ none
      | returns rep u' refs' ↦
          some (rep, record d { users = update_user id u' d.users; refs = refs' })
    ]
  ]

-- One call of the kernel into the driver. A command that steps on an invalid pointer leads nowhere.
pub data Step (page_to_phys : Page → ℕ) : Driver → Driver → Type 0 where
  open_file : {d : Driver} (id magic : ℕ) → Step page_to_phys d (pinner_open (some id) magic d).0
  command :
      {d : Driver} (id : ℕ) (u u' : ProcInfo) (r : Replies) (copied : Bool) (cmd : PinnerCmd)
      (sz : ℕ) (rep : Reply) (refs' : Holdings)
      → KeepsPages r
      → find_user id d.users ≡ some u
      → pinner_write page_to_phys r copied cmd sz u d.refs ≡ returns rep u' refs'
      → Step page_to_phys d (record d { users = update_user id u' d.users; refs = refs' })
  release : {d d' : Driver} (id : ℕ) → pinner_release id d ≡ some d' → Step page_to_phys d d'

pub data Reach (page_to_phys : Page → ℕ) (d : Driver) : Driver → Type 0 where
  here : Reach page_to_phys d d
  next : {e f : Driver} → Reach page_to_phys d e → Step page_to_phys e f → Reach page_to_phys d f

abbrev pub held_all : Resource → List ProcInfo → ℕ
held_all x [] = 0
held_all x (u ∷ us) = one proc_block x + held x u.pinning_list + held_all x us

-- Page arrays aside, the driver has what its users' pinnings hold and a block for each user; and its
-- device is there if it says so.
pub record Accounted (d : Driver) : Type 0 where
  pub refs_eq : (x : Resource) → x ≢ page_array → d.refs x ≡ held_all x d.users
  pub device_eq : d.device ≡ d.registered

-- The static initialisers, and the driver as it is loaded.
abbrev pub not_loaded : Driver
not_loaded = record { users = []; refs = λ x. 0; registered = false; device = false }

abbrev pub loaded : Driver
loaded = (pinner_init none not_loaded).0

pub find_user-le :
    (id : ℕ) (us : List ProcInfo) {u : ProcInfo} (p : Resource)
    → find_user id us ≡ some u
    → held p u.pinning_list ≤ held_all p us
unfolding find_user
find_user-le id [] p h = absurd (cc h)
find_user-le id (v ∷ us) {u} p h = elim (Bool-cases (id == v.id)) [
  | inl hit ↦
      let e : some v ≡ some u = rw hit at h in
      omega (arith, ap (λ x. held p x.pinning_list) (some-injective v u e))
  | inr miss ↦ omega (arith, find_user-le id us p (rw miss at h))
]

update_user-held :
    (id : ℕ) (us : List ProcInfo) {u : ProcInfo} (u' : ProcInfo) (p : Resource)
    → find_user id us ≡ some u
    → held_all p (update_user id u' us) + held p u.pinning_list
      ≡ held_all p us + held p u'.pinning_list
unfolding find_user update_user
update_user-held id [] u' p h = absurd (cc h)
update_user-held id (v ∷ us) {u} u' p h = elim (Bool-cases (id == v.id)) [
  | inl hit ↦
      let e : some v ≡ some u = rw hit at h in
      rw hit (omega (arith, ap (λ x. held p x.pinning_list) (some-injective v u e)))
  | inr miss ↦ rw miss (omega (arith, update_user-held id us u' p (rw miss at h)))
]

free_pinnings-held :
    (refs : Holdings) (pins : List Pinning) (p : Resource)
    → free_pinnings refs pins p ≡ refs p - held p pins
free_pinnings-held refs [] p = omega arith
free_pinnings-held refs (pin ∷ pins) p =
    omega (arith, free_pinnings-held (free_pinning refs pin) pins p)

abbrev weigh : Resource → Option (ProcInfo × List ProcInfo) → ℕ → ℕ
weigh p none d = d
weigh p (some (u, others)) d = one proc_block p + held p u.pinning_list + held_all p others

weigh-take_user :
    (id : ℕ) (us : List ProcInfo) (p : Resource)
    → weigh p (take_user id us) (held_all p us) ≡ held_all p us
unfolding take_user
weigh-take_user id [] p = refl
weigh-take_user id (u ∷ us) p = elim (Bool-cases (id == u.id)) [
  | inl hit ↦ rw hit
  | inr miss ↦
      let ih = weigh-take_user id us p in
      elim (Option-cases (take_user id us)) [
        | inl nothing ↦ rw (miss, nothing)
        | inr ((found, others), q) ↦
            rw (miss, q) (omega (arith, sym (ap (λ x. weigh p x (held_all p us)) q) ∙ ih))
      ]
]

command-Accounted :
    (page_to_phys : Page → ℕ) (d : Driver) (id : ℕ) (u u' : ProcInfo) (rep : Reply)
    (refs' : Holdings) (o : Outcome)
    → Accounted d
    → find_user id d.users ≡ some u
    → Balanced u d.refs o
    → o ≡ returns rep u' refs'
    → Accounted (record d { users = update_user id u' d.users; refs = refs' })
command-Accounted f d id u u' rep refs' _ a found (balanced {info' = v} {refs' = g} eq same) q =
    record {
      refs_eq = λ x other.
          ground (arith, eq x other, a.refs_eq x other, update_user-held id d.users u' x found);
      device_eq = a.device_eq;
    }
command-Accounted f d id u u' rep refs' _ a found crashed q = absurd (cc q)

release-Accounted :
    (d d' : Driver) (id : ℕ) → Accounted d → pinner_release id d ≡ some d' → Accounted d'
unfolding pinner_release
release-Accounted d d' id a h = elim (Option-cases (take_user id d.users)) [
  | inl nothing ↦ let e : none ≡ some d' = rw (nothing, pinner_release) at h in absurd (cc e)
  | inr ((u, others), q) ↦
      let e : some (record d { users = others; refs = free_user u d.refs }) ≡ some d' =
        rw (q, pinner_release) at h in
      rw (sym (some-injective _ d' e)) (record {
        refs_eq = λ x other. omega (
          arith,
          a.refs_eq x other,
          free_pinnings-held d.refs u.pinning_list x,
          sym (ap (λ y. weigh x y (held_all x d.users)) q) ∙ weigh-take_user id d.users x,
        );
        device_eq = a.device_eq;
      })
]

-- Each call keeps the account.
pub Step-Accounted :
    (page_to_phys : Page → ℕ) {d d' : Driver} → Step page_to_phys d d' → Accounted d → Accounted d'
unfolding pinner_open
Step-Accounted f (open_file id magic) a = record {
  refs_eq = λ x other. omega (arith, a.refs_eq x other);
  device_eq = a.device_eq;
}
Step-Accounted f (command {d} id u u' r copied cmd sz rep refs' k found ran) a =
    command-Accounted f d id u u' rep refs' (pinner_write f r copied cmd sz u d.refs) a found
      (pinner_write-Balanced f r copied cmd sz u d.refs k
        (λ x other. omega (arith, a.refs_eq x other, find_user-le id d.users x found)))
      ran
Step-Accounted f (release {d} {d'} id ran) a = release-Accounted d d' id a ran

free_users-held :
    (us : List ProcInfo) (refs : Holdings) (p : Resource)
    → free_users us refs p ≡ refs p - held_all p us
free_users-held [] refs p = omega arith
free_users-held (u ∷ us) refs p =
    omega (arith, free_users-held us (free_user u refs) p, free_pinnings-held refs u.pinning_list p)

-- Hence any sequence of calls from the loaded driver does.
pub Reach-Accounted :
    (page_to_phys : Page → ℕ) {d : Driver} → Reach page_to_phys loaded d → Accounted d
unfolding pinner_init
Reach-Accounted f here = record { refs_eq = λ x other. refl; device_eq = refl }
Reach-Accounted f (next r s) = Step-Accounted f s (Reach-Accounted f r)

-- What `pinner_exit` leaves: no users, no device, and of what the driver had nothing but page arrays.
pub record Gone (d : Driver) : Type 0 where
  pub no_users : d.users ≡ []
  pub no_device : d.device ≡ false
  pub no_refs : (x : Resource) → x ≢ page_array → d.refs x ≡ 0

-- After any sequence of opens, commands that return, and releases from the driver as `pinner_init`
-- loads it, page arrays aside: it has exactly one reference to a page for each time that a pinning of
-- a user holds it, two blocks of memory for each pinning and one for each user; and `pinner_exit`
-- then leaves none of them, no user and no device.
pub pinner_exit-Reach :
    (page_to_phys : Page → ℕ) (d : Driver)
    → Reach page_to_phys loaded d
    → ((x : Resource) → x ≢ page_array → d.refs x ≡ held_all x d.users) × Gone (pinner_exit d)
unfolding pinner_exit
pinner_exit-Reach f d r =
    let a = Reach-Accounted f r in
    (
      a.refs_eq,
      record {
        no_users = refl;
        no_device = elim (Bool-cases d.registered) [
          | inl there ↦ rw there refl
          | inr absent ↦ rw (absent, a.device_eq, absent) refl
        ];
        no_refs = λ x other. omega (arith, a.refs_eq x other, free_users-held d.users d.refs x);
      },
    )
