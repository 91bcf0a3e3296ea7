-- ===== src/Client/K8s/Lawful.antt =====
-- What the operator relies on of the Kubernetes API for one kind of object: a map from keys to
-- objects, whose server may fill in an object but keeps what it was sent.
pub mod Beside
pub mod Memory
use kvrocks_operator.Base.{
  Bytes, Bool, true, false, ◌≡◌, ◌&&◌, Option, none, some, ◌==◌, bytes_eq, if◌then◌else◌,
}
use kvrocks_operator.Base.Exec.{ok, err, not_found, already_exists}
use kvrocks_operator.Api.{Key}
use kvrocks_operator.Client.Objects.{Store}

abbrev pub same_key : Key → Key → Bool
same_key k j = k.namespace == j.namespace && k.name == j.name

-- The view of a world is what its objects are by key, `sent` the part of an object that the server
-- keeps as it was sent, and `fresh x o` says that an object may be written over another.
pub record IsLawful {W O C : Type 0} (store : Store W O) (key_of : O → Key) (sent : O → C)
    (fresh : O → O → Bool) (view : W → Key → Option O) : Type 0 where
  pub get-some : (k : Key) (w : W) (o : O) → view w k ≡ some o → store.get k w ≡ (ok o, w)
  pub get-none : (k : Key) (w : W) → view w k ≡ none → store.get k w ≡ (err not_found, w)
  pub create-some :
      (o x : O) (w : W) → view w (key_of o) ≡ some x → store.create o w ≡ (err already_exists, w)
  pub create-none :
      (o : O) (w : W)
      → view w (key_of o) ≡ none
      → (o' : O) × (w' : W) × (store.create o w ≡ (ok o', w'))
        × (sent o' ≡ sent o)
        × ((k : Key) → view w' k ≡ (if same_key (key_of o) k then some o' else view w k))
  pub update-some :
      (o x : O) (w : W)
      → view w (key_of o) ≡ some x
      → fresh x o ≡ true
      → (o' : O) × (w' : W) × (store.update o w ≡ (ok o', w'))
        × (sent o' ≡ sent o)
        × ((k : Key) → view w' k ≡ (if same_key (key_of o) k then some o' else view w k))
  pub delete-none :
      (o : O) (w : W) → view w (key_of o) ≡ none → store.delete o w ≡ (err not_found, w)
  pub delete-some :
      (o x : O) (w : W)
      → view w (key_of o) ≡ some x
      → (w' : W) × (store.delete o w ≡ (ok tt, w'))
        × ((k : Key) → view w' k ≡ (if same_key (key_of o) k then none else view w k))
