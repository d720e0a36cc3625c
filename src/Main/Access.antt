-- ===== src/Main/Access.antt =====
-- What a client can do on the servers that main has started.
use disqueue.Base.{
  ℕ, Bool, true, false, Result-cases, Option, none, some, List, [], Bytes, codes, Result, ok, fault,
  null_dereference, ◌≡◌, ◌⊎◌, refl, sym, subst, ◌∙◌, Bool-cases, Option-cases, inl, inr,
}
use disqueue.Json.{JsonC, Calls}
use disqueue.Auth.Methods.{Auth, Auths, AuthOutside, auth_verify_at}
use disqueue.Config.{ConfigJson, ConfigAuthentication, ConfigServer, config_server_has_security}
use disqueue.Manager.State.{Manager}
use disqueue.World.{World}
use disqueue.Connection.Wait.{Outside}
use disqueue.Connection.Http.{Evhttp, Memory, Request}
use disqueue.Routes.{Listener, manager_add_server, dispatch, Served}
use disqueue.Routes.Guarded.{
  Rejects, no_header, not_accepted, not_verified, IsRefused, manager_add_server-guarded,
}
use disqueue.Ws.Upgrade.{Handshake, evws_upgrade_http_cb_}
use disqueue.Ws.Upgrade.Opening.{IsNotOpened, evws_upgrade_http_cb_-guarded}
use disqueue.Routes.Evws.{listener_of}
use disqueue.Main.{Setup, Process, GetOpt, serving, ssl_use, listener_for, main}
use disqueue.Main.Startup.{IsListenerOf, Stacked, Stacked-map, main-IsReady}

module _ (j : JsonC) (out : Outside) (mem : Memory) (e : Evhttp) where
  open e use {find_header}

  -- The request has a header of authorization that is accepted.
  abbrev pub IsAuthorised : AuthOutside → Auth → Request j out e → Auths → Type 0
  IsAuthorised o auth request s =
      (text : Bytes) × ((s' : Auths) × ((find_header request.headers (codes "Authorization")
            ≡ some text)
          × (auth_verify_at o text auth s ≡ ok (true, s'))))

  -- No callback at the path, or one that refuses.
  abbrev pub Refuses : World → Result Auths → Option (Served j out mem e) → Type 0
  Refuses w after x =
      (x ≡ none)
      ⊎ ((r : Served j out mem e) × (x ≡ some r)
          × ((r ≡ fault null_dereference) ⊎ IsRefused j out mem e w after r))

  rejected_or :
      (o : AuthOutside) (auth : Auth) (request : Request j out e) (s : Auths)
      → ((after : Result Auths) × Rejects j out mem e o auth request s after)
        ⊎ IsAuthorised o auth request s
  rejected_or o auth request s =
      elim (Option-cases (find_header request.headers (codes "Authorization"))) [
        | inl n ↦ inl (ok s, no_header n refl)
        | inr (text, n) ↦ elim (Result-cases (auth_verify_at o text auth s)) [
          | inr (f, v) ↦ inl (fault f, not_verified text f n v refl)
          | inl ((true, s'), v) ↦ inr (text, (s', (n, v)))
          | inl ((false, s'), v) ↦ inl (ok s', not_accepted text s' n v refl)
        ]
      ]

  tls_of :
      (calls : Calls) (auth : Auth) (realm : Bytes) (l : Listener) (m : Manager)
      → (manager_add_server calls (some auth) (some realm) l m).1.tls ≡ l.tls
  unfolding manager_add_server
  tls_of calls auth realm l m = elim (Bool-cases (calls 0)) [
    | inl c ↦ rw c refl
    | inr c ↦ rw c refl
  ]

  tls_for :
      (server : ConfigServer) (http ws : ℕ)
      → (listener_for server (listener_of http ws)).tls ≡ config_server_has_security server
  unfolding ssl_use
  tls_for server http ws = elim (Bool-cases (config_server_has_security server)) [
    | inl c ↦ rw c refl
    | inr c ↦ rw c refl
  ]

  module _ (same : Bytes → Bytes → Bool) (o : AuthOutside) (path : Bytes) (h : Handshake)
      (request : Request j out e) (w : World) (s : Auths) where
    -- The request is accepted by the authentication; or it is rejected, and refused over HTTP and
    -- over WebSocket.
    pub data Checked (auth : Auth) (l : Listener) : Type 0 where
      accepted : IsAuthorised o auth request s → Checked auth l
      rejected :
          (after : Result Auths)
          → Rejects j out mem e o auth request s after
          → Refuses w after (dispatch j out mem e same o l path request w s)
          → IsNotOpened j out mem e w s after
              (evws_upgrade_http_cb_ j out mem e o l.upgradecb h request w s)
          → Checked auth l

    -- The listener speaks TLS if its server has a certificate, and it checks each request by the
    -- authentication of the server.
    pub record Requires (server : ConfigServer) (l : Listener) : Type 0 where
      pub authentication : ConfigAuthentication
      pub has_authentication : server.authentication ≡ some authentication
      pub has_tls : l.tls ≡ config_server_has_security server
      pub checked : Checked authentication.auth l

    refused_at :
        (calls : Calls) (auth : Auth) (realm : Bytes) (l : Listener) (m : Manager)
        (after : Result Auths) (x : Option (Served j out mem e))
        → calls 0 ≡ true
        → Rejects j out mem e o auth request s after
        → dispatch j out mem e same o
            (manager_add_server calls (some auth) (some realm) l m).1
            path
            request
            w
            s
          ≡ x
        → Refuses w after x
    refused_at calls auth realm l m after none c u d = inl refl
    refused_at calls auth realm l m after (some r) c u d = inr (
      r,
      refl,
      manager_add_server-guarded j out mem e calls auth realm l m same o path request w s after r c
          u d,
    )

    checked_by :
        (calls : Calls) (auth : Auth) (realm : Bytes) (l : Listener) (m : Manager)
        → calls 0 ≡ true
        → ((after : Result Auths) × Rejects j out mem e o auth request s after)
          ⊎ IsAuthorised o auth request s
        → Checked auth (manager_add_server calls (some auth) (some realm) l m).1
    checked_by calls auth realm l m c (inr a) = accepted a
    checked_by calls auth realm l m c (inl (after, u)) =
        rejected after u (refused_at calls auth realm l m after _ c u refl)
          (evws_upgrade_http_cb_-guarded j out mem e calls auth realm l m o h request w s after c u)

    IsListenerOf-Requires :
        (server : ConfigServer) (l : Listener) → IsListenerOf server l → Requires server l
    IsListenerOf-Requires server l is =
        let a = is.authentication in
        let of_server = listener_for server (listener_of is.http is.ws) in
        subst (Requires server) (sym is.is_made) (record {
          authentication = a;
          has_authentication = is.has_authentication;
          has_tls =
              tls_of is.calls a.auth a.name of_server is.manager ∙ tls_for server is.http is.ws;
          checked =
              checked_by is.calls a.auth a.name of_server is.manager is.has_memory
                (rejected_or o a.auth request s);
        })

    -- If main, started with no listener, reaches the event loop, then each server of the
    -- configuration has an authentication and one listener, which speaks TLS exactly if the server
    -- has a certificate and a private key. A request carries a header that this authentication
    -- accepts, or the listener refuses it. Over HTTP, at whatever path, it then reaches no
    -- callback, or is answered by an error, or dereferences a NULL params, or breaks as the
    -- verification of its header does; over WebSocket it opens no connection. Neither changes the
    -- world; what may change is the data of the authentication, as the verification updates it.
    pub main-Requires :
        (c : ConfigJson) (fuel : ℕ) (mem_a : ℕ → Calls) (mem_s : Calls) (base : Bool)
        (setups : ℕ → Setup) (os : List GetOpt) (p q : Process)
        → p.listeners ≡ []
        → main c fuel mem_a mem_s base setups os p ≡ some (ok (serving q))
        → Stacked Requires q.config.servers [] q.listeners
    main-Requires c fuel mem_a mem_s base setups os p q ls r =
        Stacked-map IsListenerOf Requires IsListenerOf-Requires q.config.servers [] q.listeners
          (main-IsReady c fuel mem_a mem_s base setups os p q ls r)
