-- ===== src/System/Handlers.antt =====
-- The handlers of src/connection-http.c that list, make, show and delete queues, and the callbacks
-- that manager_add_server sets, on a sound registry.
use disqueue.Base.{
  ℕ, suc, ◌<◌, refl, true, false, none, some, codes, ok, breaks, yields, bind-Yields, Yields,
  Result-cases, Bool-cases, Option-cases, inl, inr,
}
use disqueue.Json.{JsonC}
use disqueue.Auth.Methods.{Auths, AuthOutside, auth_verify_at}
use disqueue.Queue.State.{size_mod}
use disqueue.Manager.State.{Manager}
use disqueue.Manager.Wants.{manager_queue_want_remove}
use disqueue.Manager.Registry.{manager_queue_free}
use disqueue.World.{World}
use disqueue.Connection.Wait.{Outside}
use disqueue.Connection.Http.{
  Evhttp, Command, get, post, delete, other, Memory, Request, connection_http_read_,
  connection_http_authenticated, with_auths,
}
use disqueue.Connection.Http.Handlers.{
  connection_http_callback_list_, connection_http_callback_new_, connection_http_callback_info_,
  connection_http_callback_delete_, connection_http_callback_queues, connection_http_callback_queue,
  unsupported, Answer,
}
use disqueue.Routes.{
  Endpoint, queues, queue, take, peek, put, Route, plain, authenticated, endpoint, serve,
}
use disqueue.System.Sound.{IsSound, suc-IsSound, grow-IsKept, extend-IsSound}
use disqueue.System.Wants.{manager_queue_want_remove-Extends}
use disqueue.System.Lookup.{manager_queue_free-IsSound}
use disqueue.System.Guards.{Leaves, with_queue-Leaves}
use disqueue.System.Items.{
  shown-Leaves, connection_http_callback_take-Leaves, connection_http_callback_peek-Leaves,
  connection_http_callback_put-Leaves,
}

module _ (j : JsonC) (out : Outside) (mem : Memory) (e : Evhttp) where
  open e use {Params}

  list-Leaves :
      (n : ℕ) (request : Request j out e) (w : World)
      → IsSound n w.manager
      → Leaves j out mem e (suc n) (connection_http_callback_list_ j out mem e request w)
  unfolding connection_http_callback_list_
  list-Leaves n request w s = elim (Option-cases (connection_http_read_ j out e request)) [
    | inl r ↦ rw r (yields _ (suc-IsSound s))
    | inr (params, r) ↦ rw r (
        shown-Leaves j out mem e (suc n) _ (λ reply. ok (reply, w))
          (λ reply. yields _ (suc-IsSound s)))
  ]

  new-Leaves :
      (n : ℕ) (request : Request j out e) (w : World)
      → IsSound n w.manager
      → Leaves j out mem e (suc n) (connection_http_callback_new_ j out mem e request w)
  unfolding connection_http_callback_new_
  new-Leaves n request w s = with_queue-Leaves j out mem e n true _ request w s (λ params mq v k t.
      elim (Bool-cases (mem.build 0)) [
        | inl m ↦ rw m (
            shown-Leaves j out mem e (suc n) _ (λ reply. ok (reply, v))
              (λ reply. yields _ (suc-IsSound t)))
        | inr m ↦ rw m (
            bind-Yields (manager_queue_free mq v.manager) _
              (manager_queue_free-IsSound n mq v.manager k t) (λ a u. yields _ (suc-IsSound u)))
      ])

  info-Leaves :
      (n : ℕ) (request : Request j out e) (w : World)
      → IsSound n w.manager
      → Leaves j out mem e (suc n) (connection_http_callback_info_ j out mem e request w)
  unfolding connection_http_callback_info_
  info-Leaves n request w s =
      with_queue-Leaves j out mem e n false _ request w s (λ params mq v k t.
        shown-Leaves j out mem e (suc n) _ (λ reply. ok (reply, v))
          (λ reply. yields _ (suc-IsSound t)))

  delete-Leaves :
      (n : ℕ) (request : Request j out e) (w : World)
      → IsSound n w.manager
      → Leaves j out mem e (suc n) (connection_http_callback_delete_ j out mem e request w)
  unfolding connection_http_callback_delete_
  delete-Leaves n request w s =
      with_queue-Leaves j out mem e n true _ request w s (λ params mq v k t.
        let m : Manager = manager_queue_want_remove mq.addr v.manager in
        let x = manager_queue_want_remove-Extends mq.addr v.manager in
        bind-Yields (manager_queue_free mq m) _
          (manager_queue_free-IsSound n mq m (grow-IsKept x.next_grows x.wants_stay k)
            (extend-IsSound t (manager_queue_want_remove-Extends mq.addr v.manager)))
          (λ a u.
            shown-Leaves j out mem e (suc n) _ (λ reply. ok (reply, record v { manager = a }))
              (λ reply. yields _ (suc-IsSound u))))

  endpoint-Leaves :
      (n : ℕ) (c : Endpoint) (request : Request j out e) (w : World)
      → n < size_mod
      → IsSound n w.manager
      → Leaves j out mem e (suc n) (endpoint j out mem e c request w)
  unfolding connection_http_callback_queues connection_http_callback_queue
  endpoint-Leaves n take request w b s =
      connection_http_callback_take-Leaves j out mem e n request w b s
  endpoint-Leaves n peek request w b s =
      connection_http_callback_peek-Leaves j out mem e n request w s
  endpoint-Leaves n put request w b s =
      connection_http_callback_put-Leaves j out mem e n request w b s
  endpoint-Leaves n queues request w b s = commands request.command
    where
      commands :
          (c : Command)
          → Leaves j out mem e (suc n) (
              (elim c as (λ x. World → Answer j out mem e) [
                | get ↦ connection_http_callback_list_ j out mem e request
                | post ↦ connection_http_callback_new_ j out mem e request
                | _ ↦ unsupported j out mem e request
              ])
                w)
      commands get = list-Leaves n request w s
      commands post = new-Leaves n request w s
      commands delete = yields _ (suc-IsSound s)
      commands other = yields _ (suc-IsSound s)
  endpoint-Leaves n queue request w b s = commands request.command
    where
      commands :
          (c : Command)
          → Leaves j out mem e (suc n) (
              (elim c as (λ x. World → Answer j out mem e) [
                | post ↦ connection_http_callback_info_ j out mem e request
                | delete ↦ connection_http_callback_delete_ j out mem e request
                | _ ↦ unsupported j out mem e request
              ])
                w)
      commands post = info-Leaves n request w s
      commands delete = delete-Leaves n request w s
      commands get = yields _ (suc-IsSound s)
      commands other = yields _ (suc-IsSound s)

  -- The data of the authentications does not matter.
  beside :
      {n : ℕ} {r : Answer j out mem e} (a : Auths)
      → Leaves j out mem e n r
      → Yields (λ p. IsSound n p.1.1.manager) (with_auths j out e a r)
  beside {n} {r} a y = bind-Yields r (λ answer. ok (a, answer)) y (λ p s. yields _ s)

  pub serve-Leaves :
      (o : AuthOutside) (n : ℕ) (r : Route) (request : Request j out e) (w : World) (a : Auths)
      → n < size_mod
      → IsSound n w.manager
      → Yields (λ p. IsSound (suc n) p.1.1.manager) (serve j out mem e o r request w a)
  unfolding connection_http_authenticated
  serve-Leaves o n (plain c) request w a b s = beside a (endpoint-Leaves n c request w b s)
  serve-Leaves o n (authenticated none c) request w a b s = breaks _ refl
  serve-Leaves o n (authenticated (some p) c) request w a b s =
      elim (Option-cases (e.find_header request.headers (codes "Authorization"))) [
        | inl h ↦ rw (h, connection_http_authenticated) (yields _ (suc-IsSound s))
        | inr (text, h) ↦
            rw (h, connection_http_authenticated)
              (elim (Result-cases (auth_verify_at o text p.auth a)) [
                | inr (f, v) ↦ rw v (breaks f refl)
                | inl ((true, t), v) ↦ rw v (beside t (endpoint-Leaves n c request w b s))
                | inl ((false, t), v) ↦ rw v (yields _ (suc-IsSound s))
              ])
      ]
