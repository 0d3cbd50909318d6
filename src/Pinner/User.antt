-- ===== src/Pinner/User.antt =====
-- The driver while one user's file is open, and after it: the other users and what they hold stay.
use mpsoc_axidma.Base.{ℕ, ◌≡◌, refl, ◌≢◌, ◌∙◌, ap, sym, true, [], ◌∷◌, some, ◌==◌, arith}
use mpsoc_axidma.PinnerApi.{sizeof_pinner_cmd, PinnerCmd}
use mpsoc_axidma.Pinner.{Page, ProcInfo}
use mpsoc_axidma.Pinner.Memory.{Resource, page_array, Holdings}
use mpsoc_axidma.Pinner.Files.{free_user, Driver, pinner_open, pinner_release, take_user}
use mpsoc_axidma.Pinner.Ops.{Replies, Reply, Outcome, returns, pinner_write}
use mpsoc_axidma.Pinner.Account.{KeepsPages, Balanced, balanced, crashed, pinner_write-Balanced}
use mpsoc_axidma.Pinner.Driver.{
  find_user, find_user-le, update_user, write_request, held_all, Accounted, open_file, command,
  release, Step-Accounted,
}

self : (x : ℕ) → (x == x) ≡ true
self x = ground arith

Balanced-id :
    (u u' : ProcInfo) (refs : Holdings) (rep : Reply) (refs' : Holdings) (o : Outcome)
    → Balanced u refs o
    → o ≡ returns rep u' refs'
    → u'.id ≡ u.id
Balanced-id u u' refs rep refs' _ (balanced {info' = v} {refs' = g} eq same) q =
    ground (arith, same, q)
Balanced-id u u' refs rep refs' _ crashed q = absurd (cc q)

module _ (d0 : Driver) (id : ℕ) where
  -- The driver as it was, but for the user `u` of the file at `id`.
  pub record HasUser (u : ProcInfo) (d : Driver) : Type 0 where
    pub users_eq : d.users ≡ u ∷ d0.users
    pub id_eq : u.id ≡ id
    pub account : Accounted d

  -- What the end of the file leaves.
  pub record Restored (d : Driver) : Type 0 where
    pub users_eq : d.users ≡ d0.users
    pub account : Accounted d

  pub find_user-HasUser : (u : ProcInfo) (d : Driver) → HasUser u d → find_user id d.users ≡ some u
  unfolding find_user
  find_user-HasUser u d w =
      let hit : (id == u.id) ≡ true = rw w.id_eq (self id) in rw (w.users_eq, hit) refl

  update_user-HasUser :
      (u u' : ProcInfo) (d : Driver) → HasUser u d → update_user id u' d.users ≡ u' ∷ d0.users
  unfolding update_user
  update_user-HasUser u u' d w =
      let hit : (id == u.id) ≡ true = rw w.id_eq (self id) in rw (w.users_eq, hit) refl

  take_user-HasUser :
      (u : ProcInfo) (d : Driver) → HasUser u d → take_user id d.users ≡ some (u, d0.users)
  unfolding take_user
  take_user-HasUser u d w =
      let hit : (id == u.id) ≡ true = rw w.id_eq (self id) in rw (w.users_eq, hit) refl

  module _ (page_to_phys : Page → ℕ) where
    pub pinner_release-Restored :
        (u : ProcInfo) (d : Driver)
        → HasUser u d
        → (d' : Driver) × (pinner_release id d ≡ some d') × Restored d'
    unfolding pinner_release
    pinner_release-Restored u d w =
        let d' : Driver = record d { users = d0.users; refs = free_user u d.refs } in
        let run : pinner_release id d ≡ some d' =
          rw (take_user-HasUser u d w, pinner_release) refl in
        (
          d',
          run,
          record {
            users_eq = refl;
            account = Step-Accounted page_to_phys (release id run) w.account;
          },
        )

    -- What a command that returns leaves.
    pub write_request-HasUser :
        (r : Replies) (c : PinnerCmd) (u u' : ProcInfo) (d : Driver) (rep : Reply)
        (refs' : Holdings)
        → KeepsPages r
        → HasUser u d
        → pinner_write page_to_phys r true c sizeof_pinner_cmd u d.refs ≡ returns rep u' refs'
        → (d' : Driver) × (write_request page_to_phys r c sizeof_pinner_cmd id d ≡ some (rep, d'))
          × HasUser u' d'
    unfolding write_request
    write_request-HasUser r c u u' d rep refs' k w ran =
        let found = find_user-HasUser u d w in
        let d' : Driver = record d { users = update_user id u' d.users; refs = refs' } in
        (
          d',
          rw (found, ran, write_request) refl,
          record {
            users_eq = update_user-HasUser u u' d w;
            id_eq =
                Balanced-id u u' d.refs rep refs' _
                  (pinner_write-Balanced page_to_phys r true c sizeof_pinner_cmd u d.refs k
                    (λ x other.
                      omega (arith, w.account.refs_eq x other, find_user-le id d.users x found)))
                  ran
                ∙ w.id_eq;
            account =
                Step-Accounted page_to_phys
                  (command id u u' r true c sizeof_pinner_cmd rep refs' k found ran) w.account;
          },
        )

-- The user that opening a file makes, and the driver with it.
abbrev pub new_user : (id magic : ℕ) → ProcInfo
new_user id magic = record { id = id; pinning_list = []; magic = magic }

pub pinner_open-HasUser :
    (page_to_phys : Page → ℕ) (id magic : ℕ) (d : Driver)
    → Accounted d
    → HasUser d id (new_user id magic) (pinner_open (some id) magic d).0
unfolding pinner_open
pinner_open-HasUser page_to_phys id magic d a = record {
  users_eq = refl;
  id_eq = refl;
  account = Step-Accounted page_to_phys (open_file id magic) a;
}

pub Restored-refs :
    (d d' : Driver) (id : ℕ)
    → Accounted d
    → Restored d id d'
    → (x : Resource) → x ≢ page_array
    → d'.refs x ≡ d.refs x
Restored-refs d d' id a w x other =
    w.account.refs_eq x other ∙ ap (held_all x) w.users_eq ∙ sym (a.refs_eq x other)
