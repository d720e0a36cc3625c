-- ===== src/Ws/Upgrade/Opening.antt =====
-- Which requests open a connection.
use disqueue.Base.{
  Bool, true, false, not, ◌&&◌, ◌||◌, Option, none, some, List, [], ◌∷◌, Bytes, codes,
  if◌then◌else◌, Result, ok, fault, Fault, ◌>>=◌, ◌≡◌, ◌⊎◌, ◌∙◌, refl, sym, ap, Option-cases, inl,
  inr, subst,
}
use disqueue.Json.{JsonC, Calls}
use disqueue.Auth.Methods.{Auth, Auths, AuthOutside}
use disqueue.Manager.State.{Manager}
use disqueue.World.{World}
use disqueue.Connection.Wait.{Outside}
use disqueue.Connection.Http.{
  Evhttp, Reply, Memory, Request, connection_ws_authenticated, with_auths, connection_http_error_,
  connection_http_auth_required_,
}
use disqueue.Routes.{Params, Listener, params_of, manager_add_server}
use disqueue.Routes.Guarded.{Rejects, no_header, not_accepted, not_verified}
use disqueue.Ws.Upgrade.{
  Handshake, req_version_before, create_security_key, evws_connection_new_, connection_new,
  switching, insert_connection, switched, with_key, unless_denied, has_version, is_get, to_copy,
  upgradecb, with_request_key, shake_hands, is_upgrade, evws_upgrade_http_cb_, print_freed, Shaken,
}

module _ (j : JsonC) (out : Outside) (mem : Memory) (e : Evhttp) where
  open e use {find_header}

  -- A handshake with this key, which is answered with that one: the headers of an upgrade, a GET of
  -- HTTP/1.1 or later, version 13, and a client that upgradecb lets pass.
  pub record IsHandshake (o : AuthOutside) (cb : Option (Option Params)) (h : Handshake)
      (request : Request j out e) (s s' : Auths) (key accept : Bytes) : Type 0 where
    pub upgrade : Bytes
    pub upgrade_is : find_header request.headers (codes "Upgrade") ≡ some upgrade
    pub connection : Bytes
    pub connection_is : find_header request.headers (codes "Connection") ≡ some connection
    pub is_asked : is_upgrade j out mem e h upgrade connection ≡ true
    pub line : (not (is_get request.command) || req_version_before h.major h.minor 1 1) ≡ false
    pub version : has_version h (find_header request.headers (codes "Sec-WebSocket-Version")) ≡ true
    pub key_is : find_header request.headers (codes "Sec-WebSocket-Key") ≡ some key
    pub passed : upgradecb j out mem e o cb request s ≡ ok (s', none)
    pub accept_is : create_security_key h.digest key ≡ some accept

  -- The data of the authentications is as before, or as upgradecb leaves it.
  abbrev pub After : AuthOutside → Option (Option Params) → Request j out e → Auths → Auths → Type 0
  After o cb request s s' =
      (s' ≡ s) ⊎ ((d : Option Reply) × (upgradecb j out mem e o cb request s ≡ ok (s', d)))

  -- What becomes of a request: a fault, replies alone, or a connection.
  pub data Opens (o : AuthOutside) (cb : Option (Option Params)) (h : Handshake)
      (request : Request j out e) (w : World) (s : Auths) (r : Shaken j out mem e) : Type 0 where
    broken : (f : Fault) → r ≡ fault f → Opens o cb h request w s r
    replied :
        (replies : List Reply) (s' : Auths)
        → After o cb request s s'
        → r ≡ ok (s', (replies, w))
        → Opens o cb h request w s r
    opened :
        (key accept : Bytes) (s' : Auths)
        → IsHandshake o cb h request s s' key accept
        → r ≡ ok (s', (switching accept ∷ [], insert_connection (connection_new w.manager.next) w))
        → Opens o cb h request w s r

  module _ (o : AuthOutside) (cb : Option (Option Params)) (h : Handshake)
      (request : Request j out e) (w : World) (s : Auths) where
    -- By the test of a branch.
    by_test :
        (b : Bool) (x y : Shaken j out mem e)
        → (b ≡ true → Opens o cb h request w s x)
        → (b ≡ false → Opens o cb h request w s y)
        → Opens o cb h request w s (if b then x else y)
    by_test true x y t f = t refl
    by_test false x y t f = f refl

    -- Replies before the call of upgradecb.
    early : (replies : List Reply) → Opens o cb h request w s (ok (s, (replies, w)))
    early replies = replied replies s (inl refl) refl

    new-Opens :
        (b : Bool) (key accept : Bytes) (s' : Auths)
        → IsHandshake o cb h request s s' key accept
        → Opens o cb h request w s (
            with_auths j out e s'
              (switched accept (if b then some (connection_new w.manager.next) else none) w))
    new-Opens true key accept s' is = opened key accept s' is refl
    new-Opens false key accept s' is = replied _ s' (inr (none, is.passed)) refl

    switched-Opens :
        (key accept : Bytes) (s' : Auths)
        → IsHandshake o cb h request s s' key accept
        → Opens o cb h request w s
            (with_auths j out e s' (switched accept (evws_connection_new_ h w) w))
    unfolding evws_connection_new_
    switched-Opens key accept s' is =
        new-Opens (h.calloc && h.take_ownership && h.server_init) key accept s' is

    -- What is known once the request is an upgrade with these headers.
    unless_denied-Opens :
        (key : Bytes) (denied : Result (Auths × Option Reply))
        → upgradecb j out mem e o cb request s ≡ denied
        → ((accept : Bytes) (s' : Auths)
            → create_security_key h.digest key ≡ some accept
            → upgradecb j out mem e o cb request s ≡ ok (s', none)
            → IsHandshake o cb h request s s' key accept)
        → Opens o cb h request w s
            (denied >>= λ d. with_auths j out e d.0 (unless_denied h key d.1 w))
    unless_denied-Opens key (fault f) d is = broken f refl
    unless_denied-Opens key (ok (s', some reply)) d is =
        replied (reply ∷ []) s' (inr (some reply, d)) refl
    unless_denied-Opens key (ok (s', none)) d is =
        elim (Option-cases (create_security_key h.digest key)) [
          | inl n ↦
              replied _ s' (inr (none, d)) (ap (λ a. with_auths j out e s' (with_key h a w)) n)
          | inr (accept, a) ↦
              subst (λ k. Opens o cb h request w s (with_auths j out e s' (with_key h k w))) (sym a)
                (switched-Opens key accept s' (is accept s' a d))
        ]

    from_not : (b : Bool) → not b ≡ false → b ≡ true
    from_not true e = refl
    from_not false e = cc

    with_request_key-Opens :
        (upgrade connection : Bytes)
        → find_header request.headers (codes "Upgrade") ≡ some upgrade
        → find_header request.headers (codes "Connection") ≡ some connection
        → is_upgrade j out mem e h upgrade connection ≡ true
        → (not (is_get request.command) || req_version_before h.major h.minor 1 1) ≡ false
        → has_version h (find_header request.headers (codes "Sec-WebSocket-Version")) ≡ true
        → (k : Option Bytes) → find_header request.headers (codes "Sec-WebSocket-Key") ≡ k
        → Opens o cb h request w s (with_request_key j out mem e o cb h request k w s)
    with_request_key-Opens upgrade connection u c is line v none k = early _
    with_request_key-Opens upgrade connection u c is line v (some key) k =
        unless_denied-Opens key (upgradecb j out mem e o cb request s) refl (λ accept s' a d.
          record {
            upgrade = upgrade;
            upgrade_is = u;
            connection = connection;
            connection_is = c;
            is_asked = is;
            line = line;
            version = v;
            key_is = k;
            passed = d;
            accept_is = a;
          })

    shake_hands-Opens :
        (upgrade connection : Bytes)
        → find_header request.headers (codes "Upgrade") ≡ some upgrade
        → find_header request.headers (codes "Connection") ≡ some connection
        → is_upgrade j out mem e h upgrade connection ≡ true
        → Opens o cb h request w s (shake_hands j out mem e o cb h request w s)
    unfolding shake_hands
    shake_hands-Opens upgrade connection u c is =
        by_test _ _ _ (λ b. early _)
          (λ line.
            by_test _ _ _ (λ b. early _)
              (λ v.
                with_request_key-Opens upgrade connection u c is line (from_not _ v)
                  (find_header request.headers (codes "Sec-WebSocket-Key")) refl))

    print_freed-Opens :
        (b : Bool) → Opens o cb h request w s (with_auths j out e s (print_freed b w))
    print_freed-Opens true = broken _ refl
    print_freed-Opens false = early _

    copied-Opens :
        (u c : Option Bytes)
        → find_header request.headers (codes "Upgrade") ≡ u
        → find_header request.headers (codes "Connection") ≡ c
        → Opens o cb h request w s (do
          upgrade ← to_copy u
          connection ← to_copy c
          if is_upgrade j out mem e h upgrade connection
              then shake_hands j out mem e o cb h request w s
              else with_auths j out e s (print_freed (h.upgrade_copied || h.connection_copied) w))
    copied-Opens none c eu ec = broken _ refl
    copied-Opens (some u) none eu ec = broken _ refl
    copied-Opens (some u) (some c) eu ec =
        by_test _ _ _ (shake_hands-Opens u c eu ec) (λ b. print_freed-Opens _)

    -- A request to the WebSocket path ends in a fault, or in replies that leave the world as it
    -- was, or it opens one connection, which stands last and has a new address. It opens a
    -- connection only by a handshake: a GET of HTTP/1.1 or later with the two headers of an
    -- upgrade, version 13 and a key, which upgradecb lets pass and which is answered by 101 with
    -- the security key of that key. The data of the authentications stays, or is what upgradecb
    -- leaves.
    pub evws_upgrade_http_cb_-Opens :
        Opens o cb h request w s (evws_upgrade_http_cb_ j out mem e o cb h request w s)
    unfolding evws_upgrade_http_cb_
    evws_upgrade_http_cb_-Opens = copied-Opens _ _ refl refl

  -- No connection: a fault, or replies with the world as it was and the data of the authentications
  -- as before or as the verification leaves it.
  abbrev pub IsNotOpened : World → Auths → Result Auths → Shaken j out mem e → Type 0
  IsNotOpened w s after r =
      ((f : Fault) × (r ≡ fault f))
      ⊎ ((replies : List Reply) × ((s' : Auths) × (((s' ≡ s) ⊎ (after ≡ ok s'))
              × (r ≡ ok (s', (replies, w))))))

  -- What upgradecb does with a request that is rejected.
  data Denies (after : Result Auths) (r : Result (Auths × Option Reply)) : Type 0 where
    stops : (f : Fault) → r ≡ fault f → Denies after r
    denies : (s : Auths) (reply : Reply) → after ≡ ok s → r ≡ ok (s, some reply) → Denies after r

  Rejects-Denies :
      (o : AuthOutside) (auth : Auth) (realm : Bytes) (alloc : Bool) (request : Request j out e)
      (s : Auths) (after : Result Auths)
      → Rejects j out mem e o auth request s after
      → Denies after (upgradecb j out mem e o (some (params_of alloc auth realm)) request s)
  unfolding connection_ws_authenticated
  Rejects-Denies o auth realm false request s after u = stops _ refl
  Rejects-Denies o auth realm true request s after (no_header n a) =
      denies s
        (connection_http_error_ j out (connection_http_auth_required_ j out e mem realm ∷ []) 401
          (codes "authentication required"))
        a (rw (n, connection_ws_authenticated) refl)
  Rejects-Denies o auth realm true request s after (not_accepted text s' n v a) =
      denies s' (connection_http_error_ j out [] 403 (codes "authentication failed")) a
        (rw (n, v, connection_ws_authenticated) refl)
  Rejects-Denies o auth realm true request s after (not_verified text f n v a) =
      stops f (rw (n, v, connection_ws_authenticated) refl)

  Denies-After :
      (o : AuthOutside) (cb : Option (Option Params)) (request : Request j out e) (s s' : Auths)
      (after : Result Auths)
      → Denies after (upgradecb j out mem e o cb request s)
      → After o cb request s s'
      → (s' ≡ s) ⊎ (after ≡ ok s')
  Denies-After o cb request s s' after d (inl same) = inl same
  Denies-After o cb request s s' after (stops f u) (inr (reply, v)) = cc
  Denies-After o cb request s s' after (denies t reply a u) (inr (x, v)) =
      let same : t ≡ s' = cc in inr (a ∙ ap (λ y. ok y) same)

  Opens-IsNotOpened :
      (o : AuthOutside) (cb : Option (Option Params)) (h : Handshake) (request : Request j out e)
      (w : World) (s : Auths) (after : Result Auths) (r : Shaken j out mem e)
      → Denies after (upgradecb j out mem e o cb request s)
      → Opens o cb h request w s r
      → IsNotOpened w s after r
  Opens-IsNotOpened o cb h request w s after r d (broken f b) = inl (f, b)
  Opens-IsNotOpened o cb h request w s after r d (replied replies s' a b) =
      inr (replies, (s', (Denies-After o cb request s s' after d a, b)))
  Opens-IsNotOpened o cb h request w s after r (stops f u) (opened key accept s' is b) =
      let p = is.passed in cc
  Opens-IsNotOpened o cb h request w s after r (denies t reply a u) (opened key accept s' is b) =
      let p = is.passed in cc

  -- On a server that was added with an authentication and a realm, an upgrade request whose header
  -- of authorization is missing or is not accepted opens no connection: it ends in a fault, or in
  -- replies that leave the world as it was.
  pub evws_upgrade_http_cb_-guarded :
      (calls : Calls) (auth : Auth) (realm : Bytes) (l : Listener) (m : Manager) (o : AuthOutside)
      (h : Handshake) (request : Request j out e) (w : World) (s : Auths) (after : Result Auths)
      → calls 0 ≡ true
      → Rejects j out mem e o auth request s after
      → IsNotOpened w s after (
          evws_upgrade_http_cb_ j out mem e o
            (manager_add_server calls (some auth) (some realm) l m).1.upgradecb
            h
            request
            w
            s)
  unfolding manager_add_server
  evws_upgrade_http_cb_-guarded calls auth realm l m o h request w s after c u =
      let cb = (manager_add_server calls (some auth) (some realm) l m).1.upgradecb in
      let q : some (params_of (calls 6) auth realm) ≡ cb = sym (rw (c, manager_add_server) refl) in
      Opens-IsNotOpened o cb h request w s after _
        (subst (λ x. Denies after (upgradecb j out mem e o x request s)) q
          (Rejects-Denies o auth realm (calls 6) request s after u))
        (evws_upgrade_http_cb_-Opens o cb h request w s)
