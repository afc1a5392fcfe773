-- ===== src/Network/Subscriptions.antt =====
-- src/p2p.rs: what `run` of the swarm controller subscribes to before it enters its loop.
use mintpool.Prelude.{
  ◌≡◌, refl, sym, ap, ◌∙◌, String, List, [], ◌∷◌, ◌++◌, Option, none, some, Result, ok, err,
  filter_map, append-nil, append_assoc,
}
use mintpool.Types.Data.{Report}
use mintpool.Network.Addresses.{Multiaddr}
use mintpool.Network.Topics.{announce_topic}
use mintpool.Network.State.{
  Call, subscribe, start_providing, listen_on, Libs, SwarmController, Node, call, try_call,
}
use mintpool.Network.Commands.{
  Outcome, ◌then_do◌, gossip_subscribe, subscribe_each, topics_of, listen, run, key_of,
}

abbrev pub subscription : Call → Option String
subscription (subscribe topic) = some topic
subscription _ = none

-- The topics that were subscribed to, oldest first.
abbrev pub subscriptions : List Call → List String
subscriptions calls = filter_map subscription calls

subscriptions-append :
    (a b : List Call) → subscriptions (a ++ b) ≡ subscriptions a ++ subscriptions b
subscriptions-append [] b = refl
subscriptions-append (c ∷ a) b = onto (subscription c) (subscriptions-append a b)
  where
    onto :
        (o : Option String)
        → subscriptions (a ++ b) ≡ subscriptions a ++ subscriptions b
        → elim o [ none ↦ subscriptions (a ++ b) | some t ↦ t ∷ subscriptions (a ++ b) ]
          ≡ elim o [ none ↦ subscriptions a | some t ↦ t ∷ subscriptions a ] ++ subscriptions b
    onto none h = h
    onto (some t) h = ap (λ ts. t ∷ ts) h

subscriptions-call :
    (c : Call) (n : Node)
    → subscriptions (call c n).calls ≡ subscriptions n.calls ++ subscriptions (c ∷ [])
unfolding call
subscriptions-call c n = subscriptions-append n.calls (c ∷ [])

module _ (libs : Libs) where
  gossip_subscribe-subscriptions :
      (topic : String) (n : Node)
      → subscriptions (gossip_subscribe libs topic n).1.calls ≡ subscriptions n.calls ++ topic ∷ []
  unfolding gossip_subscribe
  gossip_subscribe-subscriptions topic n = by_result (libs.succeeds n.calls (subscribe topic))
    where
      provided : Node
      provided = call (subscribe topic) n

      by_result :
          (r : Result (Unit {0}) Report)
          → subscriptions
              ((r, provided) then_do λ n'.
                try_call libs (start_providing (key_of libs topic)) n').1.calls
            ≡ subscriptions n.calls ++ topic ∷ []
      by_result (ok u) =
          subscriptions-call (start_providing (key_of libs topic)) provided
          ∙ append-nil (subscriptions provided.calls)
          ∙ subscriptions-call (subscribe topic) n
      by_result (err e) = subscriptions-call (subscribe topic) n

  subscribe_each-subscriptions :
      (topics : List String) (n : Node)
      → subscriptions (subscribe_each libs topics n).calls ≡ subscriptions n.calls ++ topics
  unfolding subscribe_each
  subscribe_each-subscriptions [] n = sym (append-nil (subscriptions n.calls))
  subscribe_each-subscriptions (t ∷ topics) n =
      subscribe_each-subscriptions topics (gossip_subscribe libs t n).1
      ∙ ap (λ ts. ts ++ topics) (gossip_subscribe-subscriptions t n)
      ∙ append_assoc (subscriptions n.calls) (t ∷ []) topics

  listen-subscriptions :
      (addr : Result Multiaddr Report) (n : Node)
      → subscriptions (listen libs addr n).1.calls ≡ subscriptions n.calls
  unfolding listen
  listen-subscriptions (err e) n = refl
  listen-subscriptions (ok a) n =
      subscriptions-call (listen_on a) n ∙ append-nil (subscriptions n.calls)

  then_do-ok :
      (m : Outcome) (f : Node → Outcome)
      → (m then_do f).0 ≡ ok tt
      → (m then_do f ≡ f m.1) × ((f m.1).0 ≡ ok tt)
  then_do-ok (ok u, n) f h = (refl, h)
  then_do-ok (err e, n) f h = cc

  module _ (ctl : SwarmController) where
    -- When the swarm controller enters its loop, it has subscribed to the announcements and to the
    -- premints and the claims of each kind that it names, in this order; a failure to subscribe to
    -- premints or claims stops none of the others.
    pub run-subscriptions :
        (quic tcp : Result Multiaddr Report) (n : Node)
        → (run libs ctl quic tcp n).0 ≡ ok tt
        → subscriptions (run libs ctl quic tcp n).1.calls
          ≡ subscriptions n.calls ++ announce_topic ∷ topics_of libs ctl.premint_names
    unfolding run
    run-subscriptions quic tcp n h =
        let rest = topics_of libs ctl.premint_names in
        let a = (listen libs quic n).1 in
        let b = (listen libs tcp a).1 in
        let c = (gossip_subscribe libs announce_topic b).1 in
        let third : Node → Outcome = λ m. (ok tt, subscribe_each libs rest m) in
        let second : Node → Outcome = λ m. gossip_subscribe libs announce_topic m then_do third in
        let first : Node → Outcome = λ m. listen libs tcp m then_do second in
        let (e, h1) = then_do-ok (listen libs quic n) first h in
        let (e', h2) = then_do-ok (listen libs tcp a) second h1 in
        let (e'', h3) = then_do-ok (gossip_subscribe libs announce_topic b) third h2 in
        ap (λ (r : Outcome). subscriptions r.1.calls) (e ∙ e' ∙ e'')
        ∙ subscribe_each-subscriptions rest c
        ∙ ap (λ ts. ts ++ rest)
            (gossip_subscribe-subscriptions announce_topic b
              ∙ ap (λ ts. ts ++ announce_topic ∷ [])
                  (listen-subscriptions tcp a ∙ listen-subscriptions quic n))
        ∙ append_assoc (subscriptions n.calls) (announce_topic ∷ []) rest
