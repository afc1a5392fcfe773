-- ===== src/Startup/Laws.antt =====
-- src/run.rs: the key, the boot nodes and the chains that are watched.
use mintpool.Prelude.{
  ℕ, zero, suc, ◌≤◌, ◌≡◌, ◌↔◌, refl, sym, ap, ap₂, ◌∙◌, inl, inr, String, Bool, true, List, [], ◌∷◌,
  ◌++◌, map, Option, none, some, Result, ok, err, take, length, ltb, All, Bool-cases, append-nil,
  append_assoc, arith, length-append,
}
use mintpool.Config.{Config, check, supported_chains}
use mintpool.Types.Data.{Report}
use mintpool.Controller.State.{ControllerCommands, connect_to_peer, announce_self}
use mintpool.Controller.Interface.{Interface, send_command}
use mintpool.ChainList.{Chain, get_rpc_url}
use mintpool.Startup.{
  replicate, drop, copy_into, key_bytes, connect_each, connect_to_boot_nodes, PollResult, no_filter,
  failed, add_watcher, watchers, start_watch_chain,
}

length-replicate : (n a : ℕ) → length (replicate n a) ≡ n
length-replicate zero a = refl
length-replicate (suc n) a = ap suc (length-replicate n a)

take-replicate : (k m : ℕ) → k ≤ m → take k (replicate {A = ℕ} m 0) ≡ replicate k 0
take-replicate zero m h = refl
take-replicate (suc k) zero h = absurd (omega arith)
take-replicate (suc k) (suc m) h = ap (λ (xs : List ℕ). 0 ∷ xs) (take-replicate k m (omega arith))

-- A short source fills the front of the buffer, and zeros stay behind it.
copy_into-short :
    (source : List ℕ) (k m : ℕ)
    → length source ≤ k
    → k ≤ m
    → copy_into source (replicate k 0) ≡ take k (source ++ replicate m 0)
copy_into-short [] k m h h' = sym (take-replicate k m h')
copy_into-short (x ∷ source) zero m h h' = absurd (omega arith)
copy_into-short (x ∷ source) (suc k) zero h h' = absurd (omega arith)
copy_into-short (x ∷ source) (suc k) (suc m) h h' =
    ap (λ xs. x ∷ xs) (copy_into-short source k (suc m) (omega arith) (omega arith))

take-append : (k : ℕ) (xs ys : List ℕ) → k ≤ length xs → take k (xs ++ ys) ≡ take k xs
take-append zero xs ys h = refl
take-append (suc k) [] ys h = absurd (omega arith)
take-append (suc k) (x ∷ xs) ys h = ap (λ zs. x ∷ zs) (take-append k xs ys (omega arith))

length-take : (k : ℕ) (xs : List ℕ) → k ≤ length xs → length (take k xs) ≡ k
length-take zero xs h = refl
length-take (suc k) [] h = absurd (omega arith)
length-take (suc k) (x ∷ xs) h = ap suc (length-take k xs (omega arith))

drop-length : (xs : List ℕ) (k : ℕ) → length xs ≤ k → drop k xs ≡ []
drop-length [] zero h = refl
drop-length [] (suc k) h = refl
drop-length (x ∷ xs) zero h = absurd (omega arith)
drop-length (x ∷ xs) (suc k) h = drop-length xs k (omega arith)

take-take : (k : ℕ) (xs : List ℕ) → take k (take k xs) ≡ take k xs
take-take zero xs = refl
take-take (suc k) [] = refl
take-take (suc k) (x ∷ xs) = ap (λ zs. x ∷ zs) (take-take k xs)

key_bytes-eq : (bs : List ℕ) → key_bytes bs ≡ take 32 (bs ++ replicate 32 0)
unfolding key_bytes
key_bytes-eq bs = elim (Bool-cases (ltb (length bs) 32)) [
  | inl short ↦ rw short (copy_into-short bs 32 32 (ground arith) (omega arith))
  | inr other ↦ elim (Bool-cases (ltb 32 (length bs))) [
    | inl long ↦
        let whole : 32 ≤ length bs = ground arith in
        let cut = length-take 32 bs whole in
        rw (other, long)
          (copy_into-short (take 32 bs) 32 32 (omega (arith, cut)) (omega arith)
            ∙ take-append 32 (take 32 bs) (replicate 32 0) (omega (arith, cut))
            ∙ take-take 32 bs
            ∙ sym (take-append 32 bs (replicate 32 0) whole))
    | inr equal ↦ rw (other, equal) (copy_into-short bs 32 32 (ground arith) (omega arith))
  ]
]

-- The key is made of 32 bytes, whatever the secret's length: its first 32 bytes, with zeros behind
-- a shorter one. So a secret of another length than 32 is not refused.
pub key_bytes-take :
    (secret_bytes : List ℕ)
    → (key_bytes secret_bytes ≡ take 32 (secret_bytes ++ replicate 32 0))
      × (length (key_bytes secret_bytes) ≡ 32)
key_bytes-take bs = (
  key_bytes-eq bs,
  ap length (key_bytes-eq bs)
      ∙ length-take 32 (bs ++ replicate 32 0)
          (omega (arith, length-append bs (replicate 32 0), length-replicate 32 0)),
)

-- The task ends after so many polls, the last of which finds no filter.
abbrev pub EndsAfter : List PollResult → ℕ → Type 0
EndsAfter results n =
    (before : List PollResult) × (after : List PollResult) × (results ≡ before ++ no_filter ∷ after)
    × All (λ r. (e : Report) × (r ≡ failed e)) before
    × (n ≡ suc (length before))

module _ (get_url : ℕ → Result String Report) where
  -- Each chain, with the URL that it is reached by.
  abbrev pub Watched : List ℕ → List (ℕ × String) → Type 0
  Watched [] [] = Unit
  Watched [] (w ∷ ws) = ⊥
  Watched (c ∷ cs) [] = ⊥
  Watched (c ∷ cs) (w ∷ ws) = (w.0 ≡ c) × (get_url c ≡ ok w.1) × Watched cs ws

  add_watcher-Watched :
      (c : ℕ) (chains : List ℕ) (r : Result String Report) (others : Option (List (ℕ × String)))
      (ws : List (ℕ × String))
      → get_url c ≡ r
      → ((vs : List (ℕ × String)) → (others ≡ some vs) ↔ Watched chains vs)
      → (add_watcher c r others ≡ some ws) ↔ Watched (c ∷ chains) ws
  add_watcher-Watched c chains (err e) others [] g ih = ((λ h. cc h), (λ h. absurd h))
  add_watcher-Watched c chains (err e) others (w ∷ ws) g ih = ((λ h. cc h), (λ h. cc (g, h.1)))
  add_watcher-Watched c chains (ok url) none [] g ih = ((λ h. cc h), (λ h. absurd h))
  add_watcher-Watched c chains (ok url) none (w ∷ ws) g ih =
      ((λ h. cc h), (λ h. cc ((ih ws).1 h.2)))
  add_watcher-Watched c chains (ok url) (some vs) [] g ih = ((λ h. cc h), (λ h. absurd h))
  add_watcher-Watched c chains (ok url) (some vs) (w ∷ ws) g ih = (
    (λ h.
        let head : (c, url) ≡ w = cc h in
        let rest : vs ≡ ws = cc h in
        (ap (λ x. x.0) (sym head), g ∙ ap (λ x. ok x.1) head, (ih ws).0 (ap some rest))),
    (λ h.
        let url' : url ≡ w.1 = cc (g, h.1) in
        let vs' : vs ≡ ws = cc ((ih ws).1 h.2) in
        ap₂ (λ x xs. some (x ∷ xs)) (ap₂ (λ a b. (a, b)) (sym h.0) url') vs'),
  )

  watchers-Watched :
      (chains : List ℕ) (ws : List (ℕ × String))
      → (watchers get_url chains ≡ some ws) ↔ Watched chains ws
  watchers-Watched [] [] = ((λ h. tt), (λ h. refl))
  watchers-Watched [] (w ∷ ws) = ((λ h. cc h), (λ h. absurd h))
  watchers-Watched (c ∷ chains) ws =
      add_watcher-Watched c chains (get_url c) (watchers get_url chains) ws refl
        (watchers-Watched chains)

-- In the mode Check, where the configured chains parse, the watching starts without a panic exactly
-- when every chain has a URL, and then each chain is watched by its own.
pub start_watch_chain-Watched :
    (parse : String → Option ℕ) (env_var : String → Option String) (list : List Chain)
    (config : Config) (chains : List ℕ) (ws : List (ℕ × String))
    → config.chain_inclusion_mode ≡ check
    → supported_chains parse config ≡ some chains
    → (start_watch_chain parse env_var list config ≡ some ws)
      ↔ Watched (get_rpc_url env_var list) chains ws
unfolding start_watch_chain
start_watch_chain-Watched parse env_var list config chains ws mode parses =
    simp (mode, parses) (watchers-Watched (get_rpc_url env_var list) chains ws)

abbrev pub opened : List ControllerCommands → Interface
opened commands = record { commands = commands; is_open = true }

connect_each-opened :
    (nodes : List String) (commands : List ControllerCommands)
    → connect_each nodes (opened commands) ≡ opened (commands ++ map connect_to_peer nodes)
unfolding connect_each send_command
connect_each-opened [] commands = ap opened (sym (append-nil commands))
connect_each-opened (node ∷ nodes) commands =
    connect_each-opened nodes (commands ++ connect_to_peer node ∷ [])
    ∙ ap opened (append_assoc commands (connect_to_peer node ∷ []) (map connect_to_peer nodes))

-- While the controller receives, it gets a command to connect for each boot node, in their order,
-- and then the one to announce.
pub connect_to_boot_nodes-commands :
    (nodes : List String) (i : Interface)
    → i.is_open ≡ true
    → connect_to_boot_nodes nodes i ≡ record {
      commands = i.commands ++ (map connect_to_peer nodes ++ announce_self ∷ []);
      is_open = true;
    }
unfolding connect_to_boot_nodes send_command
connect_to_boot_nodes-commands nodes i is_open =
    ap
      (λ (b : Bool).
        (send_command announce_self
          (connect_each nodes (record { commands = i.commands; is_open = b }))).1)
      is_open
    ∙ ap (λ (j : Interface). (send_command announce_self j).1)
        (connect_each-opened nodes i.commands)
    ∙ ap opened (append_assoc i.commands (map connect_to_peer nodes) (announce_self ∷ []))
