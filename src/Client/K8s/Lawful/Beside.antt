-- ===== src/Client/K8s/Lawful/Beside.antt =====
-- A store of objects beside another part of the world, which it leaves alone.
use kvrocks_operator.Base.{Bool, ◌≡◌, sym, ap, Option}
use kvrocks_operator.Base.Exec.{Result, Exec, ok}
use kvrocks_operator.Api.{Key}
use kvrocks_operator.Client.Objects.{Store}
use kvrocks_operator.Client.K8s.Lawful.{IsLawful}

abbrev paired : {A W B : Type 0} → A → Result B × W → Result B × (A × W)
paired a (r, w) = (r, (a, w))

abbrev second : {A W B : Type 0} → Exec W B → Exec (A × W) B
second m (a, w) = paired a (m w)

abbrev pub beside : {A W O : Type 0} → Store W O → Store (A × W) O
beside store = record {
  get = λ k. second (store.get k);
  create = λ o. second (store.create o);
  update = λ o. second (store.update o);
  delete = λ o. second (store.delete o);
  list = λ n l. second (store.list n l);
}

module _ {A W O C : Type 0} (store : Store W O) (key_of : O → Key) (sent : O → C)
    (fresh : O → O → Bool) (view : W → Key → Option O) where
  pub beside-IsLawful :
      IsLawful store key_of sent fresh view
      → IsLawful (beside {A = A} store) key_of sent fresh (λ w. view w.1)
  beside-IsLawful lawful = record {
    get-some = λ k w o e. ap (paired w.0) (lawful.get-some k w.1 o e);
    get-none = λ k w e. ap (paired w.0) (lawful.get-none k w.1 e);
    create-some = λ o x w e. ap (paired w.0) (lawful.create-some o x w.1 e);
    create-none = λ o w e.
        let (o', w', done, same, there) = lawful.create-none o w.1 e in
        (o', (w.0, w'), ap (paired w.0) done, same, there);
    update-some = λ o x w e f.
        let (o', w', done, same, there) = lawful.update-some o x w.1 e f in
        (o', (w.0, w'), ap (paired w.0) done, same, there);
    delete-none = λ o w e. ap (paired w.0) (lawful.delete-none o w.1 e);
    delete-some = λ o x w e.
        let (w', done, there) = lawful.delete-some o x w.1 e in
        ((w.0, w'), ap (paired w.0) done, there);
  }

  pub update-beside :
      (o o' : O) (w w' : A × W) → (beside store).update o w ≡ (ok o', w') → w'.0 ≡ w.0
  update-beside o o' w w' e = sym (ap (λ x. x.1.0) e)
