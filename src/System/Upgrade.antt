-- ===== src/System/Upgrade.antt =====
-- evws_upgrade_http_cb_ of src/ws.c on a sound registry.
use disqueue.Base.{
  ℕ, suc, ◌||◌, not, Bool, true, false, Option, none, some, Bytes, codes, refl, arith, inl, inr,
  Yields, breaks, yields, by_test, Result-cases, ok, bind-Yields,
}
use disqueue.Json.{JsonC}
use disqueue.Auth.Methods.{Auths, AuthOutside}
use disqueue.World.{Connection, World}
use disqueue.Connection.Wait.{Outside}
use disqueue.Connection.Http.{Evhttp, Memory, Request, Reply, with_auths}
use disqueue.Routes.{Params}
use disqueue.Ws.Upgrade.{
  Handshake, create_security_key, evws_connection_new_, unless_denied, with_key, switched,
  shake_hands, with_request_key, upgradecb, to_copy, is_upgrade, is_get, has_version, print_freed,
  evws_upgrade_http_cb_, Upgraded, req_version_before, Shaken,
}
use disqueue.System.Sound.{IsSound, extend-IsSound, grown}

-- If an upgrade answers, the registry is sound after it.
abbrev Upgrades : ℕ → Upgraded → Type 0
Upgrades n = Yields (λ p. IsSound n p.1.manager)

switched-Upgrades :
    (n : ℕ) (key : Bytes) (c : Option Connection) (w : World)
    → IsSound n w.manager
    → Upgrades n (switched key c w)
switched-Upgrades n key none w s = yields _ s
switched-Upgrades n key (some c) w s = yields _ (
    extend-IsSound s
      (grown _ (record w.manager { next = suc w.manager.next }) refl refl refl (omega arith)))

with_key-Upgrades :
    (n : ℕ) (h : Handshake) (key : Option Bytes) (w : World)
    → IsSound n w.manager
    → Upgrades n (with_key h key w)
with_key-Upgrades n h none w s = yields _ s
with_key-Upgrades n h (some key) w s = switched-Upgrades n key (evws_connection_new_ h w) w s

unless_denied-Upgrades :
    (n : ℕ) (h : Handshake) (key : Bytes) (denied : Option Reply) (w : World)
    → IsSound n w.manager
    → Upgrades n (unless_denied h key denied w)
unless_denied-Upgrades n h key (some reply) w s = yields _ s
unless_denied-Upgrades n h key none w s =
    with_key-Upgrades n h (create_security_key h.digest key) w s

print_freed-Upgrades :
    (n : ℕ) (b : Bool) (w : World) → IsSound n w.manager → Upgrades n (print_freed b w)
print_freed-Upgrades n true w s = breaks _ refl
print_freed-Upgrades n false w s = yields _ s

module _ (j : JsonC) (out : Outside) (mem : Memory) (e : Evhttp) (o : AuthOutside)
    (cb : Option (Option Params)) (h : Handshake) (request : Request j out e) where
  -- The same beside the data of the authentications.
  abbrev pub Shakes : ℕ → Shaken j out mem e → Type 0
  Shakes n = Yields (λ p. IsSound n p.1.1.manager)

  beside : {n : ℕ} {r : Upgraded} (a : Auths) → Upgrades n r → Shakes n (with_auths j out e a r)
  beside {n} {r} a y = bind-Yields r (λ answer. ok (a, answer)) y (λ p s. yields _ s)

  with_request_key-Upgrades :
      (n : ℕ) (key : Option Bytes) (w : World) (a : Auths)
      → IsSound n w.manager
      → Shakes n (with_request_key j out mem e o cb h request key w a)
  with_request_key-Upgrades n none w a s = yields _ s
  with_request_key-Upgrades n (some key) w a s =
      elim (Result-cases (upgradecb j out mem e o cb request a)) [
        | inr (f, u) ↦ rw u (breaks f refl)
        | inl (denied, u) ↦ rw u (beside denied.0 (unless_denied-Upgrades n h key denied.1 w s))
      ]

  shake_hands-Upgrades :
      (n : ℕ) (w : World) (a : Auths)
      → IsSound n w.manager
      → Shakes n (shake_hands j out mem e o cb h request w a)
  unfolding shake_hands
  shake_hands-Upgrades n w a s =
      by_test (not (is_get request.command) || req_version_before h.major h.minor 1 1) _ _
        (yields _ s)
        (by_test
          (not (has_version h (e.find_header request.headers (codes "Sec-WebSocket-Version")))) _ _
          (yields _ s)
          (with_request_key-Upgrades n (e.find_header request.headers (codes "Sec-WebSocket-Key")) w
            a s))

  pub evws_upgrade_http_cb_-Upgrades :
      (n : ℕ) (w : World) (a : Auths)
      → IsSound n w.manager
      → Shakes n (evws_upgrade_http_cb_ j out mem e o cb h request w a)
  unfolding evws_upgrade_http_cb_
  evws_upgrade_http_cb_-Upgrades n w a s =
      elim (Result-cases (to_copy (e.find_header request.headers (codes "Upgrade")))) [
        | inr (f, u) ↦ rw u (breaks f refl)
        | inl (upgrade, u) ↦
            rw u
              (elim (Result-cases (to_copy (e.find_header request.headers (codes "Connection")))) [
                | inr (f, c) ↦ rw c (breaks f refl)
                | inl (connection, c) ↦ rw c (
                    by_test (is_upgrade j out mem e h upgrade connection) _ _
                      (shake_hands-Upgrades n w a s)
                      (beside a
                        (print_freed-Upgrades n (h.upgrade_copied || h.connection_copied) w s)))
              ])
      ]
