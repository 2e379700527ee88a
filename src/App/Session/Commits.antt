-- ===== src/App/Session/Commits.antt =====
-- What the log in memory has after an op is committed and after the application is opened
-- (splittr-app/src/app.rs).
use splittr.Prelude.{
  ℕ, Bool, true, false, Option, none, some, Result, ok, err, ◌≡◌, refl, sym, ap, ◌∙◌, arith, inl,
  inr, if◌then◌else◌,
}
use mathlib.Core.Path.{subst}
use splittr.Prelude.Ord.{bytes_ord, bytes_self}
use splittr.BTree.{insert, contains_key, values}
use splittr.Crdt.Clock.{Hlc, SiteId}
use splittr.Crdt.Op.{Op, OpId, OpKind, Crypto, canonical, signed, verify}
use splittr.Crdt.Projection.{Projection}
use splittr.Crdt.Materialize.{project}
use splittr.Crypto.Invite.{Accepts}
use splittr.Store.OpStore.{MemoryOpStore, StoreError, memory_store}
use splittr.Store.Repository.{Repository, stored, duplicate, read_projection}
use splittr.Store.Repository.Invariant.{IsReplica, append-Appends}
use splittr.Store.Repository.Read.{read_projection-project, open_repository-IsReplica}
use splittr.App.Clock.{next, new_generator}
use splittr.App.Identity.{Seeds, Identity, RootSecret, root_key, device_public}
use splittr.App.Error.{AppError, root_locked, store_failed}
use splittr.App.Commands.{App, commit_signed, commit_with, answer_of}
use splittr.App.Session.{new_app, ensure_device_authorized, enrol, opened}

-- A signed op verifies.
signed-verify :
    (crypto : Crypto) (hlc : Hlc) (key : crypto.SigningKey) (kind : OpKind)
    → Accepts crypto
    → verify crypto (signed crypto hlc key kind) ≡ ok tt
unfolding verify signed
signed-verify crypto hlc key kind law =
    let content = canonical crypto hlc (crypto.public key) kind in
    ground (arith, bytes_self (crypto.hash content), law key content)

module _ (crypto : Crypto) (seeds : Seeds crypto) (universe : OpId → Op) where
  -- The applications with the log in memory.
  abbrev Local : Type 0
  Local = App crypto seeds MemoryOpStore

  -- The op that is signed with a key.
  abbrev pub stamped : ℕ → App crypto seeds MemoryOpStore → crypto.SigningKey → OpKind → Op
  stamped now app key kind = signed crypto (next app.clock now).1 key kind

  -- What a commit with a key answers and leaves; without the key the log is as it was.
  abbrev pub CommitsAs :
      Option crypto.SigningKey
      → ℕ
      → App crypto seeds MemoryOpStore
      → OpKind
      → App crypto seeds MemoryOpStore × Result AppError (Unit {0})
      → Type 0
  CommitsAs none now app kind (app', answer) = (answer ≡ err root_locked) × (app'.repo ≡ app.repo)
  CommitsAs (some key) now app kind (app', answer) =
      let op = stamped now app key kind in
      (answer ≡ ok tt)
      × (app'.repo.store.held ≡ insert op.id op app.repo.store.held)
      × IsReplica crypto universe app'.repo

  commit_with-CommitsAs :
      (key : Option crypto.SigningKey) (now : ℕ) (app : App crypto seeds MemoryOpStore)
      (kind : OpKind)
      → Accepts crypto
      → IsReplica crypto universe app.repo
      → ((k : crypto.SigningKey)
          → key ≡ some k
          → universe (stamped now app k kind).id ≡ stamped now app k kind)
      → CommitsAs key now app kind (commit_with crypto seeds MemoryOpStore key now app kind)
  commit_with-CommitsAs none now app kind law replica named = (refl, refl)
  commit_with-CommitsAs (some key) now app kind law replica named =
      let op = stamped now app key kind in
      let (replica', said) =
        append-Appends crypto universe app.repo op replica (λ _. named key refl) in
      elim said [
        | inl (verified, held, applied) ↦ (
          ap (answer_of crypto seeds MemoryOpStore) applied
              ∙ accepted (contains_key op.id app.repo.store.held),
          held,
          replica',
        )
        | inr (forged, _, _) ↦
            absurd (forged (signed-verify crypto (next app.clock now).1 key kind law))
      ]
    where
      accepted :
          (b : Bool)
          → answer_of crypto seeds MemoryOpStore (ok (if b then duplicate else stored)) ≡ ok tt
      accepted true = refl
      accepted false = refl

  -- Over the log in memory, a command that gets to its op is answered without an error if it has
  -- the key to sign with: where signatures are accepted and the id of the op signed with that key
  -- names it, the op verifies, it is in the log afterwards, and the log and the read model stay a
  -- replica. Where the identity's key is asked for and sealed there is an error, and the repository
  -- is as it was.
  pub commit_signed-CommitsAs :
      (now : ℕ) (app : App crypto seeds MemoryOpStore) (kind : OpKind) (as_root : Bool)
      → Accepts crypto
      → IsReplica crypto universe app.repo
      → ((k : crypto.SigningKey)
          → (if as_root then root_key crypto seeds app.identity else some app.identity.device)
            ≡ some k
          → universe (stamped now app k kind).id ≡ stamped now app k kind)
      → CommitsAs
          (if as_root then root_key crypto seeds app.identity else some app.identity.device)
          now
          app
          kind
          (commit_signed crypto seeds MemoryOpStore now app kind as_root)
  unfolding commit_signed
  commit_signed-CommitsAs now app kind as_root law replica named =
      commit_with-CommitsAs
        (if as_root then root_key crypto seeds app.identity else some app.identity.device) now app
        kind law replica named

  -- The certificate that a device issues to itself when it first runs.
  abbrev pub certificate : ℕ → Identity crypto seeds → SiteId → crypto.SigningKey → Op
  certificate now identity site key =
      signed crypto (next (new_generator site) now).1 key
        (OpKind.authorize_device identity.identity_pub (device_public crypto seeds identity) site)

  -- What opening gives, by whether the device is enrolled and by the identity's key.
  abbrev pub OpensAs :
      Bool
      → Option crypto.SigningKey
      → ℕ
      → Identity crypto seeds
      → Repository MemoryOpStore
      → SiteId
      → Result AppError (App crypto seeds MemoryOpStore)
      → Type 0
  OpensAs true key now identity r site opening =
      (app : App crypto seeds MemoryOpStore) × (opening ≡ ok app)
      × (app.repo.store ≡ r.store)
      × IsReplica crypto universe app.repo
  OpensAs false none now identity r site opening = opening ≡ err root_locked
  OpensAs false (some key) now identity r site opening =
      let op = certificate now identity site key in
      (app : App crypto seeds MemoryOpStore) × (opening ≡ ok app)
      × (app.repo.store.held ≡ insert op.id op r.store.held)
      × IsReplica crypto universe app.repo

  opened_ok :
      (x : App crypto seeds MemoryOpStore × Result AppError (Unit {0}))
      → x.1 ≡ ok tt
      → opened crypto seeds MemoryOpStore x ≡ ok x.0
  opened_ok (app, err e) h = cc
  opened_ok (app, ok _) h = refl

  module _ (now : ℕ) (identity : Identity crypto seeds) (r : Repository MemoryOpStore)
      (site : SiteId) where
    -- The application over a repository, before the certificate.
    abbrev fresh : Repository MemoryOpStore → App crypto seeds MemoryOpStore
    fresh repo = record { identity = identity; repo = repo; clock = new_generator site }

    abbrev enrolling : OpKind
    enrolling =
        OpKind.authorize_device identity.identity_pub (device_public crypto seeds identity) site

    abbrev key_of : Option (RootSecret crypto seeds) → Option crypto.SigningKey
    key_of root = elim root [ none ↦ none | some s ↦ some s.root ]

    module _ (repo : Repository MemoryOpStore) (law : Accepts crypto)
        (replica : IsReplica crypto universe repo) (same_store : repo.store ≡ r.store) where
      on_root :
          (root : Option (RootSecret crypto seeds))
          → ((k : crypto.SigningKey)
              → key_of root ≡ some k
              → universe (certificate now identity site k).id ≡ certificate now identity site k)
          → OpensAs false (key_of root) now identity r site (
              opened crypto seeds MemoryOpStore (
                if elim root [ none ↦ false | some _ ↦ true ]
                then commit_with crypto seeds MemoryOpStore (key_of root) now (fresh repo) enrolling
                else (fresh repo, err root_locked)))
      on_root none named = refl
      on_root (some s) named =
          let (answered, held, replica') =
            commit_with-CommitsAs (some s.root) now (fresh repo) enrolling law replica named in
          let after =
            commit_with crypto seeds MemoryOpStore (some s.root) now (fresh repo) enrolling in
          (
            after.0,
            opened_ok after answered,
            held
                ∙ ap
                    (λ st.
                      insert (certificate now identity site s.root).id
                        (certificate now identity site s.root) st.held)
                    same_store,
            replica',
          )

      enrol-OpensAs :
          (enrolled : Bool)
          → ((k : crypto.SigningKey)
              → root_key crypto seeds identity ≡ some k
              → universe (certificate now identity site k).id ≡ certificate now identity site k)
          → OpensAs enrolled (root_key crypto seeds identity) now identity r site (
              opened crypto seeds MemoryOpStore
                (enrol crypto seeds MemoryOpStore enrolled now (fresh repo) site))
      unfolding commit_signed
      enrol-OpensAs true named = (fresh repo, refl, same_store, replica)
      enrol-OpensAs false named = on_root identity.root named

    -- The application opened over the log in memory of a replica, where signatures are accepted and
    -- the id of the certificate signed with the identity's key, if that is there, names it. A device that the log enrols opens, with the root key or without, and appends nothing.
    -- Another device opens if the root key is there, and its certificate is in the log then; it is
    -- refused where the root is locked. What opens stands over a replica.
    pub new_app-OpensAs :
        Accepts crypto
        → IsReplica crypto universe r
        → ((k : crypto.SigningKey)
            → root_key crypto seeds identity ≡ some k
            → universe (certificate now identity site k).id ≡ certificate now identity site k)
        → OpensAs
            (contains_key
              (device_public crypto seeds identity)
              (project (values r.store.held)).devices)
            (root_key crypto seeds identity)
            now
            identity
            r
            site
            (new_app crypto seeds MemoryOpStore now identity r.store site)
    unfolding new_app ensure_device_authorized
    new_app-OpensAs law replica named =
        let (r', reopened, same_store, _, replica') =
          open_repository-IsReplica crypto universe r replica in
        let (read, store_read, replica'') = read_projection-project crypto universe r' replica' in
        let log_read = read ∙ ap (λ (s : MemoryOpStore). project (values s.held)) same_store in
        subst
          (λ (o : Result StoreError (Repository MemoryOpStore)).
            OpensAs
              (contains_key (device_public crypto seeds identity)
                (project (values r.store.held)).devices)
              (root_key crypto seeds identity) now identity r site
              (elim o [
                | err e ↦ err (store_failed e)
                | ok repo ↦
                    opened crypto seeds MemoryOpStore
                      (ensure_device_authorized crypto seeds MemoryOpStore now (fresh repo) site)
              ]))
          (sym reopened)
          (subst
            (λ (p : Projection).
              OpensAs (contains_key (device_public crypto seeds identity) p.devices)
                (root_key crypto seeds identity) now identity r site
                (opened crypto seeds MemoryOpStore (
                  enrol crypto seeds MemoryOpStore
                    (contains_key (device_public crypto seeds identity)
                      (read_projection r').1.devices)
                    now (fresh (read_projection r').0) site)))
            log_read
            (enrol-OpensAs (read_projection r').0 law replica'' (store_read ∙ same_store)
              (contains_key (device_public crypto seeds identity) (read_projection r').1.devices)
              named))
