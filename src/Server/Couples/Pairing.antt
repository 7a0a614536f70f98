-- ===== src/Server/Couples/Pairing.antt =====
-- Couples and `handle_create_room` and `handle_create_invite` of server/src/ws.rs.
use little_love.Prelude.{
  ℕ, ◌≡◌, ◌≢◌, ◌⊎◌, refl, inl, inr, Bool, true, false, String, Option, none, some, List, nat_Eq,
  string_Eq, list_Eq, arith, subst,
}
use little_love.Server.Db.{Db, Result, ok, err}
use little_love.Server.Accounts.{AccountRecord}
use little_love.Server.Invites.{default_expiry, create_invite_record}
use little_love.Server.Wire.{internal, bad_name, PendingInvite}
use little_love.Server.Rooms.Links.{partner_account_id_for-link}
use little_love.Server.Rooms.Queries.{partner_account_id_for}
use little_love.Server.Rooms.Mutations.{
  CreateResult, created, create_error, create_room_with_members,
}
use little_love.Server.World.{
  Env, Act, ◌>>=◌, gets, execute, returning, query, draw_ulid, draw_invite,
}
use little_love.Server.World.Triples.{
  Triple, Triple-pure, Triple-bind, Triple-execute, Triple-weaken, Triple-gets, Triple-fail,
  Triple-returning, Keeps-execute, Keeps-bind,
}
use little_love.Server.Ws.Guards.{need_store, or_internal, check}
use little_love.Server.Ws.Guards.Keeping.{guard_rules, Keeps-need_store, Keeps-check}
use little_love.Server.Ws.Pairing.{handle_create_invite, or_not_created, need_detail}
use little_love.Server.Ws.Rooms.{
  requested_name, stored_invite, announce_room, auto_partner, room_invite, handle_create_room,
  wants_invite,
}
use little_love.Server.Ws.Guards.Steps.{query-Step, draw_ulid-Step}
use little_love.Server.Couples.{KeepsCouples, seated, invites_to, Safe}
use little_love.Server.Couples.Invites.{MayInvite, create_invite_record-KeepsCouples}
use little_love.Server.Couples.Seats.{
  IsPartner, Creating, create_room_with_members-Creating, create_room_with_members_error,
}

-- Stepping from one assertion to the next, with couples kept on every early return.
abbrev pub Step : {A : Type 0} → (Db → Type 0) → Act A → (A → Db → Type 0) → Type 0
Step P m Q = Triple P m Q KeepsCouples

roomless-Safe :
    (me : ℕ) (hash : List ℕ) (expires : ℕ)
    → Safe (execute (create_invite_record me hash expires none))
roomless-Safe me hash expires =
    Keeps-execute (create_invite_record me hash expires none)
      (λ db k. create_invite_record-KeepsCouples me hash expires none db k (λ r e. absurd (cc e)))

pub handle_create_invite-Safe :
    (env : Env) (me : AccountRecord) (tx : ℕ) → Safe (handle_create_invite env me tx)
unfolding handle_create_invite
handle_create_invite-Safe env me tx = search (guard_rules, roomless-Safe) depth 20

pub need_detail-Safe : (room_id : String) (tx : ℕ) → Safe (need_detail room_id tx)
unfolding need_detail
need_detail-Safe room_id tx = search guard_rules depth 20

auto_partner-Step :
    (me : AccountRecord) (wanted : Bool) (tx : ℕ)
    → Step KeepsCouples (auto_partner me wanted tx) (λ p db. KeepsCouples db × IsPartner me.id p db)
unfolding auto_partner
auto_partner-Step me false tx = Triple-pure none (λ db k. (k, λ p e. absurd (cc e)))
auto_partner-Step me true tx =
    Triple-weaken (query (partner_account_id_for me.id) >>= or_internal tx) (λ db k. k)
      (λ p db k. (k.0, λ q e. ground (arith, e, k.1, partner_account_id_for-link me.id db)))
      (query-Step (partner_account_id_for me.id) tx (λ db k. k))

-- The room after its transaction: created, or nothing changed.
abbrev Attempted : String → ℕ → Option ℕ → Result CreateResult → Db → Type 0
Attempted r host partner answer db =
    KeepsCouples db × (answer ≡ ok created → Creating r host partner db)

pub create_error-or-created : (c : CreateResult) → (c ≡ created) ⊎ (c ≢ created)
create_error-or-created created = inl refl
create_error-or-created (create_error e) = inr (λ h. cc)

pub create-Step :
    (r : String) (host : ℕ) (partner : Option ℕ) (name : String) (now : ℕ)
    → Step
        (λ db. KeepsCouples db × IsPartner host partner db)
        (returning (create_room_with_members r host partner name now))
        (Attempted r host partner)
create-Step r host partner name now =
    Triple-returning (create_room_with_members r host partner name now)
      (λ db p.
        elim (create_error-or-created (create_room_with_members r host partner name now db).0) [
          | inl e ↦
              let c = create_room_with_members-Creating r host partner name now db e p.1 p.0 in
              (c.keeps, λ _. c)
          | inr e ↦
              let same = create_room_with_members_error r host partner name now db e in
              (rw same p.0, λ h. absurd (e (cc h)))
        ])
      (λ db p. (p.0, λ h. absurd (cc h)))

pub or_not_created-Step :
    (r : String) (host : ℕ) (partner : Option ℕ) (answer : Result CreateResult) (tx : ℕ)
    → Step
        (Attempted r host partner answer)
        (or_not_created answer r tx)
        (λ room. Creating room host partner)
unfolding or_not_created
or_not_created-Step r host partner (ok created) tx = Triple-pure r (λ db p. p.1 refl)
or_not_created-Step r host partner (ok (create_error e)) tx =
    Triple-fail tx internal "" (λ db p. p.0)
or_not_created-Step r host partner (err e) tx = Triple-fail tx internal "" (λ db p. p.0)

draw_invite-Step : {P : Db → Type 0} (env : Env) → Step P (draw_invite env) (λ _. P)
unfolding draw_invite
draw_invite-Step env = record { at = λ w p. p }

alone-MayInvite : (me : ℕ) (r : String) (db : Db) → Creating r me none db → MayInvite me (some r) db
alone-MayInvite me r db c q e =
    let same : r ≡ q = cc e in
    subst
      (λ x.
        ((m : ℕ) → seated x m db.room_members ≡ true → m ≡ me)
        × ((i : ℕ) → invites_to i x db.invites ≡ false))
      same
      ((λ m h. elim (c.only.seats_of m h) [ inl f ↦ f | inr f ↦ absurd (cc f) ]), c.only.uninvited)

invite-Step :
    (me : AccountRecord) (r : String) (hash : List ℕ) (expires : ℕ)
    → Step
        (Creating r me.id none)
        (execute (create_invite_record me.id hash expires (some r)))
        (λ _. KeepsCouples)
invite-Step me r hash expires =
    Triple-execute (create_invite_record me.id hash expires (some r))
      (λ db c.
        create_invite_record-KeepsCouples me.id hash expires (some r) db c.keeps
          (alone-MayInvite me.id r db c))
      (λ db c. c.keeps)

stored_invite-Safe :
    (env : Env) (code : List ℕ) (expires tx : ℕ) (stored : Result (Unit {0}))
    → Safe (stored_invite env code expires tx stored)
unfolding stored_invite
stored_invite-Safe env code expires tx stored = search guard_rules depth 20

announce_room-Safe :
    (env : Env) (room_id : String) (tx : ℕ) (invite : Option PendingInvite)
    → Safe (announce_room env room_id tx invite)
unfolding announce_room
announce_room-Safe env room_id tx invite = search (guard_rules, need_detail-Safe) depth 20

-- Only a room that the inviter has alone is invited to.
room_invite-Step :
    (env : Env) (me : AccountRecord) (r : String) (wanted : Bool) (partner : Option ℕ) (tx : ℕ)
    → Step
        (Creating r me.id partner)
        (room_invite env me r (wants_invite wanted partner) tx)
        (λ _. KeepsCouples)
unfolding room_invite
room_invite-Step env me r wanted (some p) tx = Triple-pure none (λ db c. c.keeps)
room_invite-Step env me r false none tx = Triple-pure none (λ db c. c.keeps)
room_invite-Step env me r true none tx =
    Triple-bind (draw_invite env) _ (draw_invite-Step env) (λ invite.
      Triple-bind (gets (λ w. w.now)) _ (Triple-gets (λ w. w.now)) (λ now.
        Triple-bind (execute _) _ (invite-Step me r invite.2 (default_expiry now))
          (λ stored. stored_invite-Safe env invite.1 (default_expiry now) tx stored)))

pub handle_create_room-Safe :
    (env : Env) (me : AccountRecord) (requested : Option String) (wanted : Bool) (tx : ℕ)
    → Safe (handle_create_room env me requested wanted tx)
unfolding handle_create_room
handle_create_room-Safe env me requested wanted tx =
    Keeps-bind (need_store tx) _ (Keeps-need_store tx) (λ _.
      Keeps-bind (check _ tx bad_name _) _ (Keeps-check _ tx bad_name _) (λ _.
        Triple-bind (auto_partner me wanted tx) _ (auto_partner-Step me wanted tx) (λ partner.
          Triple-bind (draw_ulid env) _ (draw_ulid-Step env) (λ ulid.
            Triple-bind (gets (λ w. w.now)) _ (Triple-gets (λ w. w.now)) (λ now.
              Triple-bind (returning _) _
                (create-Step ulid me.id partner (requested_name requested) now)
                (λ answer.
                  Triple-bind (or_not_created answer ulid tx) _
                    (or_not_created-Step ulid me.id partner answer tx)
                    (λ room_id.
                      Triple-bind (room_invite env me room_id _ tx) _
                        (room_invite-Step env me room_id wanted partner tx)
                        (λ invite. announce_room-Safe env room_id tx invite))))))))
