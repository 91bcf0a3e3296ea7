-- ===== src/Events/Producer/Once.antt =====
-- The operator listens to a sentinel's pod at most once, for the subscriptions of
-- pkg/controllers/events.
use kvrocks_operator.Base.{
  ◌≤◌, Bytes, true, false, List, [], ◌∷◌, ◌≡◌, refl, ap, ◌∙◌, arith, map, any, keep, not, sym,
  Bool-cases, inl, inr, ==_sound, ◌==◌, bytes_eq,
}
use kvrocks_operator.Base.Exec.{Result, ok, err, panic, Exec, modify}
use kvrocks_operator.Base.Exec.Preserves.{Preserves, kept, Preserves-at, preserves_rules}
use kvrocks_operator.Api.{Kvrocks}
use kvrocks_operator.Client.Objects.{Pod}
use kvrocks_operator.Client.Env.{Env}
use kvrocks_operator.Events.Failover.Counting.{
  times, times-absent, times-keep_same, times-keep_other,
}
use kvrocks_operator.Events.Producer.{
  ProduceMessage, Subscriptions, register, listen_ends, Run, returned, call, produce_message,
  register_pod, register_pods, produce_all, produce_found, producer,
}

-- The keys are those of the goroutines, and no key stands twice.
abbrev pub Once : {W : Type 0} → Subscriptions W → Type 0
Once s =
    (map (λ (m : ProduceMessage). m.key) s.listening ≡ s.registered)
    × ((a : Bytes) → times a s.registered ≤ 1)

absent_at :
    (a key : Bytes) (keys : List Bytes)
    → any (λ k. k == key) keys ≡ false
    → (key == a) ≡ true
    → times a keys ≡ 0
absent_at a key keys f e = ap (λ x. times x keys) (sym (==_sound key a e)) ∙ times-absent key keys f

register-Once :
    {W : Type 0} (msg : ProduceMessage) (s : Subscriptions W) → Once s → Once (register msg s)
unfolding register
register-Once msg s (same, once) = elim (Bool-cases (any (λ k. k == msg.key) s.registered)) [
  | inl t ↦ rw t (same, once)
  | inr f ↦ rw f (
    ap (λ keys. msg.key ∷ keys) same,
    λ a. ground (arith, once a, absent_at a msg.key s.registered f),
  )
]

map-keep :
    (key : Bytes) (ms : List ProduceMessage)
    → map (λ (m : ProduceMessage). m.key) (keep (λ (m : ProduceMessage). not (m.key == key)) ms)
      ≡ keep (λ k. not (k == key)) (map (λ (m : ProduceMessage). m.key) ms)
map-keep key [] = refl
map-keep key (m ∷ ms) = ground (arith, map-keep key ms)

times-keep :
    (a key : Bytes) (keys : List Bytes)
    → times a keys ≤ 1
    → times a (keep (λ k. not (k == key)) keys) ≤ 1
times-keep a key keys h = elim (Bool-cases (key == a)) [
  | inl t ↦
      let gone = ap (λ x. times x (keep (λ k. not (k == key)) keys)) (sym (==_sound key a t)) in
      omega (arith, gone, times-keep_same key keys)
  | inr f ↦ omega (arith, times-keep_other a key keys f, h)
]

-- A goroutine that ends leaves it so.
pub listen_ends-Once :
    {W : Type 0} (key : Bytes) (s : Subscriptions W) → Once s → Once (listen_ends key s)
unfolding listen_ends
listen_ends-Once key s (same, once) = (
  map-keep key s.listening ∙ ap (keep (λ k. not (k == key))) same,
  λ a. times-keep a key s.registered (once a),
)

-- The same, as the rules want it.
record IsOnce {W : Type 0} (s : Subscriptions W) : Type 0 where
  pub holds : Once s

abbrev Stays : {W A : Type 0} → Run W A → Type 0
Stays m = Preserves IsOnce m

module _ {W : Type 0} where
  returned-IsOnce :
      {A : Type 0} (s : Subscriptions W) (r : Result A × W) → IsOnce s → IsOnce (returned s r).1
  unfolding returned
  returned-IsOnce s (r, w) h = record { holds = h.holds }

  Stays-call : {A : Type 0} (m : Exec W A) → Stays (call m)
  unfolding call
  Stays-call m = kept (λ s h. returned-IsOnce s (m s.world) h)

module _ {W : Type 0} (env : Env W) where
  Stays-register_pod : (k : Kvrocks) (id : Bytes) (pod : Pod) → Stays (register_pod env k id pod)
  unfolding register_pod modify
  Stays-register_pod k id pod =
      kept (λ s h. record { holds = register-Once (produce_message k id pod) s h.holds })

  Stays-register_pods :
      (k : Kvrocks) (id : Bytes) (pods : Result (List Pod)) (later : Run W Unit)
      → Stays later
      → Stays (register_pods env k id pods later)
  unfolding register_pods
  Stays-register_pods k id (ok pods) later l = search (preserves_rules, Stays-register_pod) depth 30
  Stays-register_pods k id (err e) later l = search preserves_rules
  Stays-register_pods k id panic later l = search preserves_rules

  Stays-produce_all : (sentinels : List Kvrocks) → Stays (produce_all env sentinels)
  unfolding produce_all
  Stays-produce_all [] = search preserves_rules
  Stays-produce_all (k ∷ sentinels) =
      search (preserves_rules, Stays-call, Stays-register_pods, Stays-produce_all sentinels) depth
        30

  Stays-produce_found : (r : Result (List Kvrocks)) → Stays (produce_found env r)
  unfolding produce_found
  Stays-produce_found (ok sentinels) = Stays-produce_all sentinels
  Stays-produce_found (err e) = search preserves_rules
  Stays-produce_found panic = search preserves_rules

  Stays-producer : Stays (producer env)
  unfolding producer
  Stays-producer = search (preserves_rules, Stays-call, Stays-produce_found) depth 30

  -- A round of `producer`, however it ends, keeps it so that each registered key is that of one
  -- goroutine and no key is registered twice, whatever the calls to Kubernetes give.
  pub producer-Once : (s : Subscriptions W) → Once s → Once (producer env s).1
  producer-Once s h = (Preserves-at (producer env) Stays-producer s (record { holds = h })).holds
