-- ===== src/Server/Push/Outcomes.antt =====
-- When `send` of server/src/push.rs gives a token up.
use little_love.Prelude.{
  sym, subst, ◌==◌, if◌then◌else◌, List, [], ◌∷◌, ◌++◌, Bool-cases, ℕ, ◌≡◌, ◌⊎◌, ◌↔◌, ◌∙◌, refl, ap,
  inl, inr, String, Bool, Option, none, some, nat_Eq, string_Eq, eq_iff, Option-cases, arith,
}
use little_love.Server.Scrub.{Value}
use little_love.Server.World.{PushKind, alert, voip, PushMessage, drop_token}
use little_love.Server.Push.{
  Payload, Reply, response, response_error, failure, ApnsSender, classify, client_for, compose,
  outcome, build, custom_data, add_all, send,
}

-- APNs' two ways to say that a token is dead.
abbrev pub IsDead : Reply → Type 0
IsDead reply =
    (reply ≡ response 410)
    ⊎ ((reason : Option String) × ((reply ≡ response_error 410 reason)
          ⊎ ((reply ≡ response_error 400 reason)
              × ((reason ≡ some "BadDeviceToken") ⊎ (reason ≡ some "DeviceTokenNotForTopic")))))

classify-drop_token :
    (code : ℕ) (reason : Option String)
    → (classify code reason ≡ drop_token) ↔ (
        (code ≡ 410)
        ⊎ ((code ≡ 400)
            × ((reason ≡ some "BadDeviceToken") ⊎ (reason ≡ some "DeviceTokenNotForTopic"))))
unfolding classify
classify-drop_token code none = ground arith
classify-drop_token code (some r) =
    ground (arith, eq_iff r "BadDeviceToken", eq_iff r "DeviceTokenNotForTopic")

outcome-drop_token : (reply : Reply) → (outcome reply ≡ drop_token) ↔ IsDead reply
unfolding outcome
outcome-drop_token (response code) =
    let judged = classify-drop_token code none in
    (
      (λ e. elim (judged.0 e) [
        | inl dead ↦ inl (ap response dead)
        | inr (bad, none_is) ↦ elim none_is [ inl n ↦ absurd (cc n) | inr n ↦ absurd (cc n) ]
      ]),
      λ dead. elim dead [
        | inl gone ↦ judged.1 (inl (cc gone))
        | inr (reason, other) ↦ elim other [ inl n ↦ absurd (cc n) | inr n ↦ absurd (cc (n.0)) ]
      ],
    )
outcome-drop_token (response_error code reason) =
    let judged = classify-drop_token code reason in
    (
      (λ e. elim (judged.0 e) [
        | inl dead ↦ inr (reason, inl (ap (λ c. response_error c reason) dead))
        | inr (bad, why) ↦ inr (reason, inr (ap (λ c. response_error c reason) bad, why))
      ]),
      λ dead. elim dead [
        | inl gone ↦ absurd (cc gone)
        | inr (other, cause) ↦ elim cause [
          | inl gone ↦ judged.1 (inl (cc gone))
          | inr (bad, why) ↦
              let same : reason ≡ other = cc bad in
              judged.1 (inr (cc bad, elim why [ inl w ↦ inl (same ∙ w) | inr w ↦ inr (same ∙ w) ]))
        ]
      ],
    )
outcome-drop_token failure = (
  (λ e. absurd (cc e)),
  λ dead. elim dead [
    | inl gone ↦ absurd (cc gone)
    | inr (reason, other) ↦ elim other [ inl n ↦ absurd (cc n) | inr n ↦ absurd (cc (n.0)) ]
  ],
)

module _ (collapse_id : String → Option String) (accepts : String → Value → Bool)
    (sender : ApnsSender) where
  -- Nothing that is added to a payload changes the device that it is for.
  add_all-token :
      (entries : List (String × Value)) (p q : Payload)
      → add_all collapse_id accepts sender entries p ≡ some q
      → q.device_token ≡ p.device_token
  add_all-token [] p q e = cc e
  add_all-token ((k, v) ∷ more) p q e = elim (Bool-cases (accepts k v)) [
    | inl f ↦
        add_all-token more (record p { custom = p.custom ++ (k, v) ∷ [] }) q (ground (arith, e, f))
    | inr f ↦ ground (arith, e, f)
  ]

  build-token :
      (msg : PushMessage) → (build collapse_id accepts sender msg).device_token ≡ msg.token
  unfolding build
  build-token msg = of_kind msg.push_type refl
    where
      of_kind :
          (kind : PushKind)
          → msg.push_type ≡ kind
          → (build collapse_id accepts sender msg).device_token ≡ msg.token
      of_kind alert e = rw (e, build) refl
      of_kind voip e = rw (e, build) refl

  compose-token :
      (msg : PushMessage) (payload : Payload)
      → compose collapse_id accepts sender msg ≡ some payload
      → payload.device_token ≡ msg.token
  unfolding compose build
  compose-token msg payload e =
      add_all-token (custom_data collapse_id accepts sender msg)
        (build collapse_id accepts sender msg) payload e
      ∙ build-token msg

  -- `send` gives the token up exactly when the client of its environment, production's or else the
  -- sandbox's, was sent a payload for the device, and APNs answered that the token is unregistered or bad.
  pub send-drop_token :
      (msg : PushMessage)
      → (send collapse_id accepts sender msg ≡ drop_token) ↔ (
          (payload : Payload) × (compose collapse_id accepts sender msg ≡ some payload)
          × (payload.device_token ≡ msg.token)
          × IsDead (
              if msg.environment == "production"
              then sender.production payload
              else sender.sandbox payload))
  unfolding send client_for
  send-drop_token msg = elim (Option-cases (compose collapse_id accepts sender msg)) [
    | inl refused ↦ rw (send, refused) ((λ e. absurd (cc e)), λ h. absurd (cc (h.1)))
    | inr (payload, composed) ↦
        let judged = outcome-drop_token (client_for sender msg.environment payload) in
        let asked : client_for sender msg.environment payload ≡ (
            if msg.environment == "production"
            then sender.production payload
            else sender.sandbox payload) =
          ground arith in
        rw (send, composed)
          (
            (λ e. (
              payload,
              refl,
              compose-token msg payload composed,
              subst IsDead asked (judged.0 e),
            )),
            λ h.
                let same : payload ≡ h.0 = cc (h.1) in
                judged.1 (subst IsDead (sym asked) (rw same h.3)),
          )
  ]
