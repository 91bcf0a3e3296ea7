-- ===== src/Client/K8s/Lawful/Memory.antt =====
-- A store in memory: a function from keys to objects, which an update must fit. It shows that the
-- laws can be met.
use kvrocks_operator.Base.{Bool, [], refl, ap, ◌∙◌, Option, none, some, if◌then◌else◌}
use kvrocks_operator.Base.Exec.{Result, ok, err, not_found, already_exists, conflict}
use kvrocks_operator.Api.{Key}
use kvrocks_operator.Client.Objects.{Store}
use kvrocks_operator.Client.K8s.Lawful.{IsLawful, same_key}

module _ {O : Type 0} (key_of : O → Key) (fresh : O → O → Bool) where
  abbrev Objects : Type 0
  Objects = Key → Option O

  abbrev write : Objects → Key → Option O → Objects
  write w key v k = if same_key key k then v else w k

  abbrev answer : Option O → Objects → Result O × Objects
  answer none w = (err not_found, w)
  answer (some o) w = (ok o, w)

  abbrev create_over : O → Option O → Objects → Result O × Objects
  create_over o none w = (ok o, write w (key_of o) (some o))
  create_over o (some x) w = (err already_exists, w)

  abbrev update_over : O → Option O → Objects → Result O × Objects
  update_over o none w = (err not_found, w)
  update_over o (some x) w =
      if fresh x o then (ok o, write w (key_of o) (some o)) else (err conflict, w)

  abbrev delete_over : O → Option O → Objects → Result (Unit {0}) × Objects
  delete_over o none w = (err not_found, w)
  delete_over o (some x) w = (ok tt, write w (key_of o) none)

  abbrev pub memory : Store Objects O
  memory = record {
    get = λ k w. answer (w k) w;
    create = λ o w. create_over o (w (key_of o)) w;
    update = λ o w. update_over o (w (key_of o)) w;
    delete = λ o w. delete_over o (w (key_of o)) w;
    list = λ _ _ w. (ok [], w);
  }

  pub memory-IsLawful : {C : Type 0} (sent : O → C) → IsLawful memory key_of sent fresh (λ w k. w k)
  memory-IsLawful sent = record {
    get-some = λ k w o e. ap (λ v. answer v w) e;
    get-none = λ k w e. ap (λ v. answer v w) e;
    create-some = λ o x w e. ap (λ v. create_over o v w) e;
    create-none =
        λ o w e. (o, write w (key_of o) (some o), ap (λ v. create_over o v w) e, refl, λ k. refl);
    update-some = λ o x w e f. (
      o,
      write w (key_of o) (some o),
      ap (λ v. update_over o v w) e
          ∙ ap (λ b. if b then (ok o, write w (key_of o) (some o)) else (err conflict, w)) f,
      refl,
      λ k. refl,
    );
    delete-none = λ o w e. ap (λ v. delete_over o v w) e;
    delete-some = λ o x w e. (write w (key_of o) none, ap (λ v. delete_over o v w) e, λ k. refl);
  }
