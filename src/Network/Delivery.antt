-- ===== src/Network/Delivery.antt =====
-- src/p2p.rs: from a broadcast of one node to the event of another, and the ids of the messages.
use mintpool.Prelude.{
  ◌≡◌, ◌≢◌, inl, inr, refl, sym, ap, ◌∙◌, String, Bool, true, false, List, [], ◌∷◌, ◌++◌, ok, err,
  any, str_eq, eq_iff, Bool-cases, if◌then◌else◌,
}
use mintpool.Types.Data.{Report, PremintName, InclusionClaim}
use mintpool.Types.Premint.{PremintTypes, RoundTrips, metadata}
use mintpool.Controller.State.{P2pEvent, premint_received, mint_seen_onchain}
use mintpool.Network.Topics.{
  TopicLaws, msg_topic, claims_topic, claims_topic_hashes, msg-ne-claims_topic,
  msg-ne-announce_topic, claims-ne-announce_topic, claims_topic_inj, claims_topic_hashes-other,
}
use mintpool.Network.State.{View, publish, Libs, LibsLaws, SwarmController, Node, send_event}
use mintpool.Network.Gossip.{
  Message, broadcast_message, broadcast_claim, on_premint, on_claim, on_message,
}

abbrev pub with_event : P2pEvent → Node → Node
with_event e n = record {
  calls = n.calls;
  events = n.events ++ e ∷ [];
  replies = n.replies;
  controller_open = true;
}

pub send_event_open :
    (context : String) (e : P2pEvent) (n : Node)
    → n.controller_open ≡ true
    → send_event context e n ≡ (ok tt, with_event e n)
unfolding send_event
send_event_open context e n is_open = rw is_open

str_eq_cong : (a b c d : String) → (a ≡ b → c ≡ d) → (c ≡ d → a ≡ b) → str_eq a b ≡ str_eq c d
str_eq_cong a b c d to from = elim (Bool-cases (str_eq a b)) [
  | inl same ↦ rw same (sym ((eq_iff c d).1 (to ((eq_iff a b).0 same))))
  | inr differ ↦ elim (Bool-cases (str_eq c d)) [
    | inl same ↦ cc ((eq_iff a b).1 (from ((eq_iff c d).0 same)))
    | inr differ' ↦ differ ∙ sym differ'
  ]
]

module _ (libs : Libs) (laws : LibsLaws libs) (topic_laws : TopicLaws libs.topic_texts) where
  open laws use {from_utf8_lossy-as_bytes, claim_from_json-to_json}
  open topic_laws use {topic_hash_inj}

  abbrev pub published : String → String → String → Message
  published topic text source = record {
    topic = libs.topic_texts.topic_hash topic;
    content = libs.as_bytes text;
    propagation_source = source;
  }

  other_topic :
      (a b : String)
      → a ≢ b
      → str_eq (libs.topic_texts.topic_hash a) (libs.topic_texts.topic_hash b) ≡ false
  other_topic a b ne = elim (Bool-cases (str_eq _ _)) [
    | inl same ↦ absurd (ne (topic_hash_inj _ _ ((eq_iff _ _).0 same)))
    | inr differ ↦ differ
  ]

  same_claims_topic :
      (n m : PremintName)
      → str_eq
          (libs.topic_texts.topic_hash (claims_topic libs.topic_texts n))
          (libs.topic_texts.topic_hash (claims_topic libs.topic_texts m))
        ≡ str_eq n.name m.name
  same_claims_topic n m =
      str_eq_cong _ _ _ _
        (λ e. claims_topic_inj libs.topic_texts topic_laws n m (topic_hash_inj _ _ e))
        (λ e.
          ap
            (λ (s : String).
              libs.topic_texts.topic_hash (claims_topic libs.topic_texts (record { name = s })))
            e)

  claims_topic_hashes-own :
      (name : PremintName) (names : List PremintName)
      → any
          (λ h. str_eq h (libs.topic_texts.topic_hash (claims_topic libs.topic_texts name)))
          (claims_topic_hashes libs.topic_texts names)
        ≡ any (λ n. str_eq n.name name.name) names
  unfolding claims_topic_hashes
  claims_topic_hashes-own name [] = refl
  claims_topic_hashes-own name (n ∷ names) =
      rw (same_claims_topic n name, claims_topic_hashes-own name names)

  module _ (ctl : SwarmController) (view : View) where
    -- A premint on the topic of its kind reaches the controller of whoever receives it.
    on_message-premint :
        (p : PremintTypes) (s source : String) (n : Node)
        → libs.json.from_json s ≡ ok p
        → n.controller_open ≡ true
        → on_message libs ctl view
            (published (msg_topic libs.topic_texts (metadata libs.formats p).kind) s source)
            n
          ≡ (ok tt, with_event (premint_received p) n)
    unfolding on_message
    on_message-premint p s source n reads is_open = simp (
      other_topic _ _ (msg-ne-announce_topic libs.topic_texts (metadata libs.formats p).kind),
      claims_topic_hashes-other libs.topic_texts topic_laws
          (msg_topic libs.topic_texts (metadata libs.formats p).kind)
          (msg-ne-claims_topic libs.topic_texts (metadata libs.formats p).kind) ctl.premint_names,
      from_utf8_lossy-as_bytes,
      reads,
      is_open,
    )

    -- What is done with a claim on the topic of its kind.
    pub on_message-claim :
        (claim : InclusionClaim) (s source : String) (n : Node)
        → libs.claim_to_json claim ≡ ok s
        → n.controller_open ≡ true
        → on_message libs ctl view
            (published (claims_topic libs.topic_texts (record { name = claim.kind })) s source)
            n
          ≡ (if any (λ (m : PremintName). str_eq m.name claim.kind) ctl.premint_names
              then (
                ok tt,
                with_event (mint_seen_onchain (record { claim = claim; from_peer_id = source })) n,
              )
              else on_premint libs ctl view (libs.json.from_json s) n)
    unfolding on_message on_claim
    on_message-claim claim s source n writes is_open = simp (
      other_topic _ _ (claims-ne-announce_topic libs.topic_texts (record { name = claim.kind })),
      claims_topic_hashes-own (record { name = claim.kind }) ctl.premint_names,
      from_utf8_lossy-as_bytes,
      claim_from_json-to_json claim s writes,
      is_open,
    )

    -- A premint that one node publishes is handed to the controller of every other node that gets
    -- the message and still runs, whatever kinds that node names: it is never taken for a claim or
    -- an announcement. Premints are written as JSON and read back.
    pub broadcast_message-on_message :
        RoundTrips libs.json
        → (p : PremintTypes) (s source : String) (a b : Node) → libs.json.to_json p ≡ ok s
        → b.controller_open ≡ true
        → (topic : String) × (content : _) × ((broadcast_message libs p a).1.calls
            ≡ a.calls ++ publish topic content ∷ [])
          × (on_message libs ctl view
                (record {
                  topic = libs.topic_texts.topic_hash topic;
                  content = content;
                  propagation_source = source;
                })
                b
              ≡ (ok tt, with_event (premint_received p) b))
    unfolding broadcast_message
    broadcast_message-on_message trips p s source a b writes is_open = (
      msg_topic libs.topic_texts (metadata libs.formats p).kind,
      libs.as_bytes s,
      rw writes,
      on_message-premint p s source b (trips p s writes) is_open,
    )

    -- A claim that one node publishes is handed to the controller of a node that gets the message,
    -- as a claim of the peer that sent it on, exactly when that node names the claim's kind;
    -- otherwise, as its text is no premint, nothing happens.
    pub broadcast_claim-on_message :
        (claim : InclusionClaim) (s source : String) (a b : Node) (e : Report)
        → libs.claim_to_json claim ≡ ok s
        → libs.json.from_json s ≡ err e
        → b.controller_open ≡ true
        → (topic : String) × (content : _) × ((broadcast_claim libs claim a).1.calls
            ≡ a.calls ++ publish topic content ∷ [])
          × (on_message libs ctl view
                (record {
                  topic = libs.topic_texts.topic_hash topic;
                  content = content;
                  propagation_source = source;
                })
                b
              ≡ (
                ok tt,
                if any (λ (m : PremintName). str_eq m.name claim.kind) ctl.premint_names
                    then with_event
                        (mint_seen_onchain (record { claim = claim; from_peer_id = source }))
                        b
                    else b,
              ))
    unfolding broadcast_claim on_premint
    broadcast_claim-on_message claim s source a b e writes no_premint is_open = (
      claims_topic libs.topic_texts (record { name = claim.kind }),
      libs.as_bytes s,
      rw writes,
      on_message-claim claim s source b writes is_open ∙ taken (any _ ctl.premint_names),
    )
      where
        taken :
            (named : Bool)
            → (if named
                then (
                  ok tt,
                  with_event
                      (mint_seen_onchain (record { claim = claim; from_peer_id = source }))
                      b,
                )
                else on_premint libs ctl view (libs.json.from_json s) b)
              ≡ (
                ok tt,
                if named
                    then with_event
                        (mint_seen_onchain (record { claim = claim; from_peer_id = source }))
                        b
                    else b,
              )
        taken true = refl
        taken false = rw no_premint
