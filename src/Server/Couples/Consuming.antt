-- ===== src/Server/Couples/Consuming.antt =====
-- Couples and the steps of `handle_consume_invite` of server/src/ws.rs up to the pairing.
use little_love.Prelude.{
  ℕ, ◌≡◌, ◌⊎◌, refl, sym, ap, ◌∙◌, inl, inr, not, String, Option, none, some, List, [], ◌∷◌, ◌==◌,
  nat_Eq, string_Eq, list_Eq, find, arith, Option-cases,
}
use little_love.Crypto.Invite
use little_love.Crypto.Invite.{decode_code}
use little_love.Server.Db.{
  Db, Account, io, unique_violation, foreign_key_violation, check_violation, Result, ok, err,
}
use little_love.Server.Accounts.{AccountRecord, by_id, lookup_full_account_by_id}
use little_love.Server.Invites.{
  InviteRow, InviteState, pending, expired, consumed, lookup_invite, state,
}
use little_love.Server.Wire.{
  ErrorCode, bad_code, invite_not_found, invite_expired, invalid_signature, monogamy_violation,
  already_paired, internal,
}
use little_love.Server.Wire
use little_love.Server.Rooms.Links.{link, partner_account_id_for-link}
use little_love.Server.Rooms.Monogamy.{set_partner_link_effect}
use little_love.Server.Rooms.Pairing.{
  PairResult, paired, pair_error, db_error, monogamy, set_partner_link,
}
use little_love.Server.World.{Env, gets, returning, query}
use little_love.Server.World.Triples.{
  Triple-pure, Triple-bind, Triple-returning, Triple-query, Triple-gets, Triple-fail,
}
use little_love.Server.Ws.Guards.{or_internal, found, check}
use little_love.Server.Ws.Guards.Keeping.{guard_rules}
use little_love.Server.Ws.Pairing.{
  decoded, or_not_found, need_pending, or_bad_signature, need_paired, pending_invite, consumable,
}
use little_love.Server.Ws.Guards.Steps.{Known, check-Step, or_internal-Step}
use little_love.Server.Couples.{KeepsCouples, Safe}
use little_love.Server.Couples.Accounts.{
  set_partner_link-KeepsCouples, Linked-IsMonogamous, set_partner_link-accounts,
}
use little_love.Server.Couples.Pairing.{Step}

pub known :
    {A : Type 0} (P : Db → Type 0) (f : Db → A) (a : A) (answer : Result A) (db : Db)
    → answer ≡ ok a
    → P db × ((answer ≡ ok (f db)) ⊎ (answer ≡ err io))
    → Known P f a db
known P f a answer db e p = (p.0, ground (arith, e, p.1))

found_row :
    {A : Type 0} (f : Db → Option A) (row : Option A) (a : A) (db : Db)
    → row ≡ some a
    → Known KeepsCouples f row db
    → KeepsCouples db × (f db ≡ some a)
found_row f row a db e p = (p.0, sym (p.1) ∙ e)

-- The row of the invite that is being consumed.
abbrev pub Found : List ℕ → InviteRow → Db → Type 0
Found hash invite db = KeepsCouples db × (lookup_invite hash db ≡ some invite)

decoded-Safe : (r : Invite.Result (List ℕ)) (tx : ℕ) → Safe (decoded r tx)
unfolding decoded
decoded-Safe (Invite.ok t) tx = search guard_rules
decoded-Safe (Invite.err e) tx = search guard_rules

need_pending-Step :
    {P : Db → Type 0} (s : InviteState) (tx : ℕ)
    → ((db : Db) → P db → KeepsCouples db)
    → Step P (need_pending s tx) (λ _. P)
unfolding need_pending
need_pending-Step pending tx k = Triple-pure tt (λ db p. p)
need_pending-Step expired tx k = Triple-fail tx invite_expired "" k
need_pending-Step consumed tx k = Triple-fail tx Wire.ErrorCode.invite_consumed "" k

or_not_found-Step :
    {A : Type 0} {P : Db → Type 0} {Q : A → Db → Type 0} (o : Option A) (tx : ℕ)
    → ((db : Db) → P db → KeepsCouples db)
    → ((a : A) → o ≡ some a → (db : Db) → P db → Q a db)
    → Step P (or_not_found o tx) Q
unfolding or_not_found
or_not_found-Step (some a) tx k h = Triple-pure a (h a refl)
or_not_found-Step none tx k h = Triple-fail tx invite_not_found "" k

bad_signature-Step :
    {P : Db → Type 0} (o : Option (List ℕ)) (tx : ℕ)
    → ((db : Db) → P db → KeepsCouples db)
    → Step P (or_bad_signature o tx) (λ _. P)
unfolding or_bad_signature
bad_signature-Step (some b) tx k = Triple-pure b (λ db p. p)
bad_signature-Step none tx k = Triple-fail tx invalid_signature "" k

pub pending_invite-Step :
    (env : Env) (code : List ℕ) (tx : ℕ)
    → Step KeepsCouples (pending_invite env code tx) (λ r. Found r.2 r.0)
unfolding pending_invite
pending_invite-Step env code tx =
    Triple-bind (decoded (decode_code env.unicode code) tx) _
      (decoded-Safe (decode_code env.unicode code) tx)
      (λ canonical.
        let look = lookup_invite (env.sha256 canonical) in
        Triple-bind (query look) _ (Triple-query look) (λ answer.
          Triple-bind (or_internal tx answer) _
            (or_internal-Step tx answer (λ db p. p.0)
              (λ a e db p. known KeepsCouples look a answer db e p))
            (λ row.
              Triple-bind (or_not_found row tx) _
                (or_not_found-Step row tx (λ db p. p.0)
                  (λ invite e db p. found_row look row invite db e p))
                (λ invite. Triple-bind (gets (λ w. w.now)) _ (Triple-gets (λ w. w.now)) (λ now.
                  Triple-bind (need_pending (state invite now) tx) _
                    (need_pending-Step (state invite now) tx (λ db p. p.0))
                    (λ _. Triple-pure (invite, canonical, env.sha256 canonical) (λ db p. p)))))))

pub same_id :
    (id : ℕ) (rows : List Account) (a : Account) → find (by_id id) rows ≡ some a → a.id ≡ id
same_id id [] a e = absurd (cc e)
same_id id (b ∷ rows) a e = ground (arith, same_id id rows a)

looked_up :
    (id : ℕ) (db : Db) (a : AccountRecord) → lookup_full_account_by_id id db ≡ some a → a.id ≡ id
unfolding lookup_full_account_by_id
looked_up id db a e = elim (Option-cases (find (by_id id) db.accounts)) [
  | inl f ↦ absurd (cc (e, f))
  | inr (b, f) ↦ ground (arith, e, f, same_id id db.accounts b f)
]

found_account :
    (id : ℕ) (answer : Result (Option AccountRecord)) (a : AccountRecord) (db : Db)
    → found answer ≡ some a
    → (answer ≡ ok (lookup_full_account_by_id id db)) ⊎ (answer ≡ err io)
    → a.id ≡ id
found_account id answer a db e (inl f) = looked_up id db a (ap found (sym f) ∙ e)
found_account id answer a db e (inr f) = absurd (cc (ap found (sym f) ∙ e))

pub consumable-Step :
    {P : Db → Type 0} (env : Env) (me : AccountRecord) (invite : InviteRow) (canonical : List ℕ)
    (signature : String) (tx : ℕ)
    → ((db : Db) → P db → KeepsCouples db)
    → Step P
        (consumable env me invite canonical signature tx)
        (λ inviter db. P db × (inviter.id ≡ invite.inviter_id))
unfolding consumable
consumable-Step env me invite canonical signature tx k =
    Triple-bind (or_bad_signature (env.b64_decode signature) tx) _
      (bad_signature-Step (env.b64_decode signature) tx k)
      (λ bytes.
        Triple-bind (check _ tx invalid_signature "") _
          (check-Step _ tx invalid_signature "" k (λ db e p. p))
          (λ _.
            Triple-bind (query (lookup_full_account_by_id invite.inviter_id)) _
              (Triple-query (lookup_full_account_by_id invite.inviter_id))
              (λ answer.
                Triple-bind (or_not_found (found answer) tx) _
                  (or_not_found-Step (found answer) tx (λ db p. k db p.0)
                    (λ a e db p. (p.0, found_account invite.inviter_id answer a db e p.1)))
                  (λ inviter.
                    Triple-bind (check (not (inviter.id == me.id)) tx already_paired "self-invite")
                      _
                      (check-Step (not (inviter.id == me.id)) tx already_paired "self-invite"
                        (λ db p. k db p.0) (λ db e p. p))
                      (λ _. Triple-pure inviter (λ db p. p))))))

-- Once the two are partners, with the invite's row still there.
abbrev pub Partners : ℕ → ℕ → List ℕ → InviteRow → Db → Type 0
Partners me inviter hash invite db =
    Found hash invite db × (link me db.accounts ≡ some (some inviter))

linked_now :
    (me inviter : ℕ) (db : Db)
    → KeepsCouples db
    → (set_partner_link me inviter db).0 ≡ paired
    → link me (set_partner_link me inviter db).1.accounts ≡ some (some inviter)
linked_now me inviter db k e = ground (
  arith,
  (set_partner_link_effect me inviter db (Linked-IsMonogamous db k.0)).0 e me,
  partner_account_id_for-link me (set_partner_link me inviter db).1,
)

lookup-accounts :
    (hash : List ℕ) (db after : Db)
    → after ≡ record db { accounts = after.accounts }
    → lookup_invite hash after ≡ lookup_invite hash db
unfolding lookup_invite
lookup-accounts hash db after e = ap (lookup_invite hash) e

pub pair-Step :
    (me inviter : ℕ) (hash : List ℕ) (invite : InviteRow)
    → Step (Found hash invite) (returning (set_partner_link me inviter)) (λ answer db.
      Found hash invite db × (answer ≡ ok paired → link me db.accounts ≡ some (some inviter)))
pair-Step me inviter hash invite =
    Triple-returning (set_partner_link me inviter)
      (λ db p. (
        (
          set_partner_link-KeepsCouples me inviter db p.0,
          lookup-accounts hash db (set_partner_link me inviter db).1
                (set_partner_link-accounts me inviter db p.0)
              ∙ p.1,
        ),
        λ e. linked_now me inviter db p.0 (cc e),
      ))
      (λ db p. (p, λ e. absurd (cc e)))

pub need_paired-Step :
    (me inviter : ℕ) (hash : List ℕ) (invite : InviteRow) (answer : Result PairResult) (tx : ℕ)
    → Step
        (λ db.
          Found hash invite db × (answer ≡ ok paired → link me db.accounts ≡ some (some inviter)))
        (need_paired answer tx)
        (λ _. Partners me inviter hash invite)
unfolding need_paired
need_paired-Step me inviter hash invite (ok paired) tx = Triple-pure tt (λ db p. (p.0, p.1 refl))
need_paired-Step me inviter hash invite (ok (pair_error (monogamy e))) tx =
    Triple-fail tx monogamy_violation "you already have a partner" (λ db p. p.0.0)
need_paired-Step me inviter hash invite (ok (pair_error (db_error unique_violation))) tx =
    Triple-fail tx monogamy_violation "you already have a partner" (λ db p. p.0.0)
need_paired-Step me inviter hash invite (ok (pair_error (db_error io))) tx =
    Triple-fail tx internal "" (λ db p. p.0.0)
need_paired-Step me inviter hash invite (ok (pair_error (db_error foreign_key_violation))) tx =
    Triple-fail tx internal "" (λ db p. p.0.0)
need_paired-Step me inviter hash invite (ok (pair_error (db_error check_violation))) tx =
    Triple-fail tx internal "" (λ db p. p.0.0)
need_paired-Step me inviter hash invite (err e) tx = Triple-fail tx internal "" (λ db p. p.0.0)
