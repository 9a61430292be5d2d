-- ===== src/Router/Binding.antt =====
-- From the registration calls of a program to the service (src/Router.cpp, `bind`).
use alkaidlab_fw.Base.{
  ◌≡◌, refl, sym, ap, ◌∙◌, List, [], ◌∷◌, ◌++◌, Bool, true, false, Bytes, append_assoc, append-nil,
  map,
}
use alkaidlab_fw.Middleware.{MiddlewareFn, Entry, use_named}
use alkaidlab_fw.Context.{Context}
use alkaidlab_fw.Router.{
  Method, method_get, Handler, Route, Router, Registration, Service, sync_bridge, async_bridge,
  router, add_route, get_async, use_middleware, set_async_dispatcher, set_async_task_tracker,
  registration, bind,
}

-- The calls that a program makes before `bind`.
pub data Call (H : Type 0) : Type 0 where
  added : Method → Bytes → Handler (Context H) → Call H
  added_async : Bytes → Handler (Context H) → Call H
  used : Bytes → MiddlewareFn (Context H) → Call H
  given_dispatcher : Call H
  given_tracker : Call H

module _ {H : Type 0} where
  abbrev pub perform : Call H → Router H → Router H
  perform (added m path h) r = add_route m path h r
  perform (added_async path h) r = get_async path h r
  perform (used name fn) r = use_middleware name fn r
  perform given_dispatcher r = set_async_dispatcher true r
  perform given_tracker r = set_async_task_tracker true r

  abbrev pub perform_all : List (Call H) → Router H → Router H
  perform_all [] r = r
  perform_all (call ∷ calls) r = perform_all calls (perform call r)

  -- What a program's calls ask for, read off the calls themselves.
  abbrev pub middleware_of : List (Call H) → List (Entry (Context H))
  middleware_of [] = []
  middleware_of (used name fn ∷ calls) = record { name = name; fn = fn } ∷ middleware_of calls
  middleware_of (added _ _ _ ∷ calls) = middleware_of calls
  middleware_of (added_async _ _ ∷ calls) = middleware_of calls
  middleware_of (given_dispatcher ∷ calls) = middleware_of calls
  middleware_of (given_tracker ∷ calls) = middleware_of calls

  -- One registration per route call, under the verb of that call and over the chain given.
  abbrev pub registrations_of :
      List (Entry (Context H)) → Bool → Bool → List (Call H) → List (Registration H)
  registrations_of chain d t [] = []
  registrations_of chain d t (added m path h ∷ calls) =
      record { method = m; path = path; bridge = sync_bridge chain h }
      ∷ registrations_of chain d t calls
  registrations_of chain d t (added_async path h ∷ calls) =
      record { method = method_get; path = path; bridge = async_bridge chain h d t }
      ∷ registrations_of chain d t calls
  registrations_of chain d t (used _ _ ∷ calls) = registrations_of chain d t calls
  registrations_of chain d t (given_dispatcher ∷ calls) = registrations_of chain d t calls
  registrations_of chain d t (given_tracker ∷ calls) = registrations_of chain d t calls

  abbrev routes_of : List (Call H) → List (Route H)
  routes_of [] = []
  routes_of (added m path h ∷ calls) =
      record { method = m; path = path; handler = h; is_async = false } ∷ routes_of calls
  routes_of (added_async path h ∷ calls) =
      record { method = method_get; path = path; handler = h; is_async = true } ∷ routes_of calls
  routes_of (used _ _ ∷ calls) = routes_of calls
  routes_of (given_dispatcher ∷ calls) = routes_of calls
  routes_of (given_tracker ∷ calls) = routes_of calls

  routes-perform_all :
      (calls : List (Call H)) (r : Router H)
      → (perform_all calls r).routes ≡ r.routes ++ routes_of calls
  unfolding add_route get_async use_middleware set_async_dispatcher set_async_task_tracker
  routes-perform_all [] r = sym (append-nil r.routes)
  routes-perform_all (added m path h ∷ calls) r =
      routes-perform_all calls (add_route m path h r) ∙ append_assoc r.routes _ (routes_of calls)
  routes-perform_all (added_async path h ∷ calls) r =
      routes-perform_all calls (get_async path h r) ∙ append_assoc r.routes _ (routes_of calls)
  routes-perform_all (used name fn ∷ calls) r = routes-perform_all calls (use_middleware name fn r)
  routes-perform_all (given_dispatcher ∷ calls) r =
      routes-perform_all calls (set_async_dispatcher true r)
  routes-perform_all (given_tracker ∷ calls) r =
      routes-perform_all calls (set_async_task_tracker true r)

  middlewares-perform_all :
      (calls : List (Call H)) (r : Router H)
      → (perform_all calls r).middlewares ≡ r.middlewares ++ middleware_of calls
  unfolding add_route get_async use_middleware set_async_dispatcher set_async_task_tracker use_named
  middlewares-perform_all [] r = sym (append-nil r.middlewares)
  middlewares-perform_all (added m path h ∷ calls) r =
      middlewares-perform_all calls (add_route m path h r)
  middlewares-perform_all (added_async path h ∷ calls) r =
      middlewares-perform_all calls (get_async path h r)
  middlewares-perform_all (used name fn ∷ calls) r =
      middlewares-perform_all calls (use_middleware name fn r)
      ∙ append_assoc r.middlewares _ (middleware_of calls)
  middlewares-perform_all (given_dispatcher ∷ calls) r =
      middlewares-perform_all calls (set_async_dispatcher true r)
  middlewares-perform_all (given_tracker ∷ calls) r =
      middlewares-perform_all calls (set_async_task_tracker true r)

  map-routes_of :
      (r : Router H) (calls : List (Call H))
      → map (registration r) (routes_of calls)
        ≡ registrations_of r.middlewares r.has_dispatcher r.has_tracker calls
  unfolding registration
  map-routes_of r [] = refl
  map-routes_of r (added m path h ∷ calls) = rw (map-routes_of r calls) refl
  map-routes_of r (added_async path h ∷ calls) = rw (map-routes_of r calls) refl
  map-routes_of r (used _ _ ∷ calls) = map-routes_of r calls
  map-routes_of r (given_dispatcher ∷ calls) = map-routes_of r calls
  map-routes_of r (given_tracker ∷ calls) = map-routes_of r calls

  -- `bind` adds to the service, behind what stands there, one registration for each route call
  -- and in the calls' order: under the verb of the call (GET for an asynchronous one), with its
  -- handler, and over the whole chain of middleware, also that which was added after the route.
  pub bind-perform_all :
      (calls : List (Call H)) (s : Service H)
      → (bind (perform_all calls router) s).registrations
        ≡ s.registrations
          ++ registrations_of
              (middleware_of calls)
              (perform_all calls router).has_dispatcher
              (perform_all calls router).has_tracker
              calls
  unfolding bind router
  bind-perform_all calls s =
      let r = perform_all calls router in
      ap (λ (rs : List (Registration H)). s.registrations ++ rs)
        (ap (map (registration r)) (routes-perform_all calls router)
          ∙ map-routes_of r calls
          ∙ ap
              (λ (chain : List (Entry (Context H))).
                registrations_of chain r.has_dispatcher r.has_tracker calls)
              (middlewares-perform_all calls router))
