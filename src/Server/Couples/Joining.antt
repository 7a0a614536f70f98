-- ===== src/Server/Couples/Joining.antt =====
-- Couples and `join_room` and `handle_consume_invite` of server/src/ws.rs: a seat in the inviter's
-- room.
use little_love.Prelude.{
  ℕ, ◌≡◌, refl, sym, ap, ◌∙◌, inl, inr, true, String, Option, none, some, List, [], ◌∷◌, ◌==◌,
  nat_Eq, string_Eq, list_Eq, find, arith, eq_iff, subst, Bool-cases,
}
use little_love.Server.Db.{Db, Invite, Result, ok, err}
use little_love.Server.Accounts.{AccountRecord}
use little_love.Server.Invites.{InviteRow, lookup_invite, room_for_invite, mark_consumed, has_hash}
use little_love.Server.Wire.{internal}
use little_love.Server.Rooms.Links.{link}
use little_love.Server.Rooms.Pairing.{set_partner_link}
use little_love.Server.Rooms.Mutations.{
  insert_member, CreateResult, created, create_error, create_room_with_members,
}
use little_love.Server.World.{Env, ◌>>=◌, gets, returning, commit, update, query, draw_ulid}
use little_love.Server.World.Triples.{
  Ends, Triple-pure, Triple-bind, Triple-returning, Triple-query, Triple-gets, Triple-fail,
  Triple-commit, Triple-weaken, Keeps-update, Keeps-bind,
}
use little_love.Server.Ws.Guards.{need_store, or_internal}
use little_love.Server.Ws.Guards.Keeping.{guard_rules, Keeps-need_store}
use little_love.Server.Ws.Pairing.{
  need_paired, or_not_created, welcome, resolve_room, pending_invite, consumable, join_room,
  handle_consume_invite,
}
use little_love.Server.Ws.Guards.Steps.{Known, or_internal-Step, draw_ulid-Step}
use little_love.Server.Couples.{KeepsCouples, MayJoin, invites_to, Safe}
use little_love.Server.Couples.Invites.{mark_consumed-KeepsCouples}
use little_love.Server.Couples.Seats.{
  create_room_with_members-Creating, create_room_with_members_error, Creating,
  create_room_with_members-accounts, insert_member-KeepsCouples,
}
use little_love.Server.Couples.Pairing.{create_error-or-created, Step, need_detail-Safe}
use little_love.Server.Couples.Consuming.{
  Found, Partners, known, pending_invite-Step, consumable-Step, pair-Step, need_paired-Step,
}

-- The invite that `lookup_invite` found is the one whose room `room_for_invite` gives.
found_invites_to :
    (hash : List ℕ) (room : String) (invite : InviteRow) (db : Db) (rows : List Invite)
    → (elim (find (has_hash hash) rows) [ none ↦ none | some i ↦ some i.inviter_id ])
      ≡ some invite.inviter_id
    → (elim (find (has_hash hash) rows) [ none ↦ none | some i ↦ i.room_id ]) ≡ some room
    → invites_to invite.inviter_id room rows ≡ true
found_invites_to hash room invite db [] e f = absurd (cc e)
found_invites_to hash room invite db (i ∷ rows) e f =
    ground (arith, found_invites_to hash room invite db rows, eq_iff room room)

room_invites_to :
    (hash : List ℕ) (room : String) (invite : InviteRow) (db : Db)
    → lookup_invite hash db ≡ some invite
    → room_for_invite hash db ≡ some room
    → invites_to invite.inviter_id room db.invites ≡ true
unfolding lookup_invite room_for_invite
room_invites_to hash room invite db e f =
    found_invites_to hash room invite db db.invites (ground (arith, e)) f

module _ (me inviter : ℕ) (room : String) (db : Db) (k : KeepsCouples db)
    (partners : link me db.accounts ≡ some (some inviter)) where
  back : link inviter db.accounts ≡ some (some me)
  back = (k.0.reciprocal me inviter partners).0

  invited-MayJoin :
      invites_to inviter room db.invites ≡ true
      → MayJoin db.accounts db.room_members db.invites room me
  invited-MayJoin h = record {
    with_members = λ m seat ne. elim (Bool-cases (m == inviter)) [
      | inl e ↦ ground (arith, e, back)
      | inr e ↦
          let other : link m db.accounts ≡ some (some inviter) =
            k.1.invited room inviter m h seat (λ f. ground (arith, e, f)) in
          absurd (ne (ground (arith, back, (k.0.reciprocal m inviter other).0)))
    ];
    with_inviter = λ i hi ne. rw (k.1.one_inviter room i inviter hi h) partners;
  }

  alone-MayJoin :
      Creating room inviter none db → MayJoin db.accounts db.room_members db.invites room me
  alone-MayJoin c = record {
    with_members =
        λ m seat ne. elim (c.only.seats_of m seat) [ inl e ↦ rw e back | inr e ↦ absurd (cc e) ];
    with_inviter = λ i hi ne. absurd (cc (hi, c.only.uninvited i));
  }

abbrev Ready : String → ℕ → Db → Type 0
Ready room me db = KeepsCouples db × MayJoin db.accounts db.room_members db.invites room me

-- The new room of an invite without one, when the two are partners already.
fresh_room-Step :
    (me inviter : ℕ) (room : String) (now : ℕ)
    → Step
        (λ db. KeepsCouples db × (link me db.accounts ≡ some (some inviter)))
        (returning (create_room_with_members room inviter none "" now))
        (λ answer db. KeepsCouples db × (answer ≡ ok created → Ready room me db))
fresh_room-Step me inviter room now =
    Triple-returning (create_room_with_members room inviter none "" now)
      (λ db p.
        elim (create_error-or-created (create_room_with_members room inviter none "" now db).0) [
          | inl e ↦
              let c =
                create_room_with_members-Creating room inviter none "" now db e
                  (λ q f. absurd (cc f)) p.0 in
              let partners =
                ap (link me) (create_room_with_members-accounts room inviter none "" now db)
                ∙ p.1 in
              (
                c.keeps,
                λ _. (
                  c.keeps,
                  alone-MayJoin me inviter room
                      (create_room_with_members room inviter none "" now db).1 c.keeps partners c,
                ),
              )
          | inr e ↦ (
            rw (create_room_with_members_error room inviter none "" now db e) p.0,
            λ h. absurd (e (cc h)),
          )
        ])
      (λ db p. (p.0, λ h. absurd (cc h)))

created_room-Step :
    (me : ℕ) (room : String) (answer : Result CreateResult) (tx : ℕ)
    → Step
        (λ db. KeepsCouples db × (answer ≡ ok created → Ready room me db))
        (or_not_created answer room tx)
        (λ r. Ready r me)
unfolding or_not_created
created_room-Step me room (ok created) tx = Triple-pure room (λ db p. p.1 refl)
created_room-Step me room (ok (create_error e)) tx = Triple-fail tx internal "" (λ db p. p.0)
created_room-Step me room (err e) tx = Triple-fail tx internal "" (λ db p. p.0)

resolve_room-Step :
    (env : Env) (me : ℕ) (hash : List ℕ) (invite : InviteRow) (room : Option String) (tx : ℕ)
    → Step
        (Known (Partners me invite.inviter_id hash invite) (room_for_invite hash) room)
        (resolve_room env room invite.inviter_id tx)
        (λ r. Ready r me)
unfolding resolve_room
resolve_room-Step env me hash invite (some r) tx = Triple-pure r (λ db p. (
  p.0.0.0,
  invited-MayJoin me invite.inviter_id r db p.0.0.0 p.0.1
      (room_invites_to hash r invite db p.0.0.1 (sym p.1)),
))
resolve_room-Step env me hash invite none tx =
    Triple-weaken
      (draw_ulid env >>= λ ulid. gets (λ w. w.now) >>= λ now.
        returning (create_room_with_members ulid invite.inviter_id none "" now) >>= λ answer.
        or_not_created answer ulid tx)
      (λ db p. (p.0.0.0, p.0.1)) (λ r db p. p)
      (Triple-bind (draw_ulid env) _ (draw_ulid-Step env) (λ ulid.
        Triple-bind (gets (λ w. w.now)) _ (Triple-gets (λ w. w.now)) (λ now.
          Triple-bind (returning _) _ (fresh_room-Step me invite.inviter_id ulid now)
            (λ answer. created_room-Step me ulid answer tx))))

consume-Safe : (hash : List ℕ) (now : ℕ) → Safe (update (mark_consumed hash now))
consume-Safe hash now = Keeps-update (mark_consumed hash now) (mark_consumed-KeepsCouples hash now)

welcome-Safe :
    (env : Env) (me : AccountRecord) (hash : List ℕ) (room : String) (now tx : ℕ)
    (joined : Result (Unit {0}))
    → Safe (welcome env me hash room now tx joined)
unfolding welcome
welcome-Safe env me hash room now tx joined =
    search (guard_rules, consume-Safe, need_detail-Safe) depth 20

seat-Step :
    (me : ℕ) (room : String) (now : ℕ)
    → Step (Ready room me) (commit (insert_member room me now)) (λ _. KeepsCouples)
seat-Step me room now =
    Triple-commit (insert_member room me now) (λ db p. p.0)
      (λ db after e p. insert_member-KeepsCouples room me now db after e p.1 p.0)

join_room-Step :
    (env : Env) (me : AccountRecord) (hash : List ℕ) (invite : InviteRow) (tx : ℕ)
    → Step
        (Partners me.id invite.inviter_id hash invite)
        (join_room env me invite.inviter_id hash tx)
        (λ _. KeepsCouples)
unfolding join_room
join_room-Step env me hash invite tx =
    let partners = Partners me.id invite.inviter_id hash invite in
    Triple-bind (query (room_for_invite hash)) _ (Triple-query (room_for_invite hash)) (λ answer.
      Triple-bind (or_internal tx answer) _
        (or_internal-Step tx answer (λ db p. p.0.0.0)
          (λ a e db p. known partners (room_for_invite hash) a answer db e p))
        (λ room.
          Triple-bind (resolve_room env room invite.inviter_id tx) _
            (resolve_room-Step env me.id hash invite room tx)
            (λ room_id. Triple-bind (gets (λ w. w.now)) _ (Triple-gets (λ w. w.now)) (λ now.
              Triple-bind (commit (insert_member room_id me.id now)) _ (seat-Step me.id room_id now)
                (λ joined. welcome-Safe env me hash room_id now tx joined)))))

-- The inviter of the frame is the inviter of the row.
inviter-Step :
    (env : Env) (me : AccountRecord) (hash : List ℕ) (invite : InviteRow) (inviter tx : ℕ)
    → Step
        (λ db. Found hash invite db × (inviter ≡ invite.inviter_id))
        (returning (set_partner_link me.id inviter) >>= λ answer.
          need_paired answer tx >>= λ _. join_room env me inviter hash tx)
        (λ _. KeepsCouples)
inviter-Step env me hash invite inviter tx = record {
  at = λ w p.
      subst
        (λ i.
          Ends (λ _. KeepsCouples) KeepsCouples
            ((returning (set_partner_link me.id i) >>= λ answer.
                need_paired answer tx >>= λ _. join_room env me i hash tx)
              w).0
            ((returning (set_partner_link me.id i) >>= λ answer.
                need_paired answer tx >>= λ _. join_room env me i hash tx)
              w).1.db)
        (sym p.1)
        ((Triple-bind (returning (set_partner_link me.id invite.inviter_id)) _
            (pair-Step me.id invite.inviter_id hash invite)
            (λ answer.
              Triple-bind (need_paired answer tx) _
                (need_paired-Step me.id invite.inviter_id hash invite answer tx)
                (λ _. join_room-Step env me hash invite tx))).at
          w p.0);
}

pub handle_consume_invite-Safe :
    (env : Env) (me : AccountRecord) (code : List ℕ) (signature : String) (tx : ℕ)
    → Safe (handle_consume_invite env me code signature tx)
unfolding handle_consume_invite
handle_consume_invite-Safe env me code signature tx =
    Keeps-bind (need_store tx) _ (Keeps-need_store tx) (λ _.
      Triple-bind (pending_invite env code tx) _ (pending_invite-Step env code tx) (λ row.
        Triple-bind (consumable env me row.0 row.1 signature tx) _
          (consumable-Step env me row.0 row.1 signature tx (λ db p. p.0))
          (λ inviter. inviter-Step env me row.2 row.0 inviter.id tx)))
