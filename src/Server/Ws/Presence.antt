-- ===== src/Server/Ws/Presence.antt =====
-- server/src/ws.rs: presence, typing and last-seen.
use little_love.Prelude.{ℕ, String, Bool, true, false, Option, none, [], nat_Eq, if◌then◌else◌}
use little_love.Server.Accounts.{AccountRecord, touch_last_seen, last_seen_for}
use little_love.Server.Wire.{typing, presence, profile}
use little_love.Server.Routing.{is_online}
use little_love.Server.Ledgers.{profile_for_account}
use little_love.Server.Rooms.Queries.{
  is_member, members_for_room, partner_account_id_for, partner_username_for,
}
use little_love.Server.World.{
  Env, Act, ◌>>=◌, ◌>>◌, match_some, pure, stop, gets, query, update, send_frame, deliver_to,
  for_each,
}
use little_love.Server.Ws.Guards.{
  need_store_quietly, or_stop, some_or_stop, result_or, found, deliver_to_others,
}

unfoldable pub handle_typing : AccountRecord → String → Bool → Act (Unit {0})
unfolding match_some ◌>>=◌ pure stop query is_member members_for_room for_each need_store_quietly
    deliver_to_others
handle_typing me room_id on = do
  need_store_quietly
  answer ← query (is_member room_id me.id)
  if result_or false answer
      then (do
        members ← query (members_for_room room_id)
        for_each (result_or [] members) (deliver_to_others me (typing room_id me.username on)))
      else stop

-- The partner's last-seen, when the partner is offline.
unfoldable pub partner_last_seen : AccountRecord → Bool → Act (Option ℕ)
unfolding match_some ◌>>=◌ pure query partner_account_id_for last_seen_for
partner_last_seen me online = if online then pure none else do
  partner ← query (partner_account_id_for me.id)
  match_some (found partner) (pure none)
      (λ pid. do seen ← query (last_seen_for pid); pure (result_or none seen))

-- The profile of the partner, replayed to a fresh session.
unfoldable pub replay_profile : Env → AccountRecord → String → ℕ → Act (Unit {0})
unfolding match_some ◌>>=◌ pure query send_frame partner_account_id_for profile_for_account
replay_profile env me partner tx = do
  partner_id ← query (partner_account_id_for me.id)
  match_some (found partner_id) (pure tt) (λ pid. do
    stored ← query (profile_for_account pid)
    match_some (found stored) (pure tt)
        (λ p. send_frame tx (profile partner (env.b64_encode p.envelope) p.avatar_key)))

unfoldable pub announce_presence_on_connect : Env → AccountRecord → ℕ → Act (Unit {0})
unfolding match_some ◌>>=◌ gets query update deliver_to send_frame touch_last_seen
    partner_username_for is_online need_store_quietly or_stop some_or_stop partner_last_seen
    replay_profile
announce_presence_on_connect env me tx = do
  need_store_quietly
  now ← gets (λ w. w.now)
  update (touch_last_seen me.id now)
  answer ← query (partner_username_for me.id)
  partner ← some_or_stop (found answer)
  deliver_to partner (presence me.username true none)
  online ← gets (λ w. is_online w.routing partner)
  seen ← partner_last_seen me online
  send_frame tx (presence partner online seen)
  replay_profile env me partner tx

unfoldable pub announce_presence_on_disconnect : AccountRecord → Act (Unit {0})
unfolding match_some ◌>>=◌ gets stop query update deliver_to touch_last_seen last_seen_for
    partner_username_for is_online need_store_quietly some_or_stop
announce_presence_on_disconnect me = do
  still ← gets (λ w. is_online w.routing me.username)
  if still then stop else do
    need_store_quietly
    now ← gets (λ w. w.now)
    update (touch_last_seen me.id now)
    seen ← query (last_seen_for me.id)
    answer ← query (partner_username_for me.id)
    partner ← some_or_stop (found answer)
    deliver_to partner (presence me.username false (result_or none seen))
