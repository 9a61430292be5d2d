-- ===== src/Router/Requests.antt =====
-- Asynchronous requests (src/Router.cpp, `makeAsyncHandler`).
use alkaidlab_fw.Base.{
  ℕ, suc, ◌≡◌, refl, ap, ◌∙◌, ◌⊎◌, inl, inr, List, [], ◌∷◌, ◌++◌, some, true, false, All,
  Bool-cases,
}
use alkaidlab_fw.Base.Int.{ℤ}
use alkaidlab_fw.Middleware.{Outcome, returned, threw, execute}
use alkaidlab_fw.Middleware.Keeps.{IsKept, IsKeptBy, Holds, execute-IsKept}
use alkaidlab_fw.Context.{
  Context, WriterCall, status_written, header_written, headers_ended, body_written, response_ended,
  context,
}
use alkaidlab_fw.Router.{
  Called, finished, failed, Handler, Task, innermost, end_unless, run_task, status_or_ok,
}

-- How often the writer was told that the response has ended.
abbrev pub count_ends : List WriterCall → ℕ
count_ends [] = 0
count_ends (status_written _ ∷ calls) = count_ends calls
count_ends (header_written _ _ ∷ calls) = count_ends calls
count_ends (headers_ended _ _ ∷ calls) = count_ends calls
count_ends (body_written _ ∷ calls) = count_ends calls
count_ends (response_ended ∷ calls) = suc (count_ends calls)

count_ends-last :
    (calls : List WriterCall) → count_ends (calls ++ (response_ended ∷ [])) ≡ suc (count_ends calls)
count_ends-last [] = refl
count_ends-last (status_written _ ∷ calls) = count_ends-last calls
count_ends-last (header_written _ _ ∷ calls) = count_ends-last calls
count_ends-last (headers_ended _ _ ∷ calls) = count_ends-last calls
count_ends-last (body_written _ ∷ calls) = count_ends-last calls
count_ends-last (response_ended ∷ calls) = ap suc (count_ends-last calls)

module _ {H : Type 0} where
  -- The context has its writer, and the response was ended `n` times.
  abbrev pub Ends : ℕ → Context H → Type 0
  Ends n c = (calls : List WriterCall) × (c.writer ≡ some calls) × (count_ends calls ≡ n)

  abbrev pub Finishes : Called (Context H) → Type 0
  Finishes (finished c) = Ends 0 c
  Finishes (failed c) = Ends 0 c

  innermost-IsKept :
      (h : Handler (Context H))
      → ((c : Context H) → Ends 0 c → Finishes (h c))
      → IsKept (Ends 0) (innermost h)
  unfolding innermost
  innermost-IsKept h ok c at = go (h c) (ok c at)
    where
      go :
          (r : Called (Context H))
          → Finishes r
          → Holds
              (Ends 0)
              (elim r [ finished c' ↦ returned c' (status_or_ok c') | failed c' ↦ threw c' ])
      go (finished c') p = p
      go (failed c') p = p

  end_unless-Ends : (c : Context H) → Ends 0 c → Ends 1 (end_unless false c)
  unfolding end_unless
  end_unless-Ends c (calls, here, none_yet) =
      rw here (calls ++ (response_ended ∷ []), refl, count_ends-last calls ∙ ap suc none_yet)

  -- A task whose chain and handler do not themselves end the response, whether they return or
  -- throw, leaves it ended exactly once; the exception is a chain that returned with the response
  -- handed off to a streaming writer, and then the task has not ended it at all.
  pub run_task_lem :
      (t : Task H) (calls : List WriterCall)
      → t.writer ≡ some calls
      → count_ends calls ≡ 0
      → All (IsKeptBy (Ends 0)) t.chain
      → ((c : Context H) → Ends 0 c → Finishes (t.handler c))
      → Ends 1 (run_task t)
        ⊎ (Ends 0 (run_task t)
            × ((c : Context H) × (code : ℤ) × (execute t.chain
                    (innermost t.handler)
                    (context t.req t.resp t.writer)
                  ≡ returned c code)
                × (c.streaming_handoff ≡ true)))
  unfolding run_task context end_unless
  run_task_lem t calls here none_yet layers inner =
      go (execute t.chain (innermost t.handler) (context t.req t.resp t.writer)) refl (
        execute-IsKept (Ends 0) t.chain (innermost t.handler) layers
          (innermost-IsKept t.handler inner) (context t.req t.resp t.writer)
          (calls, here, none_yet))
    where
      Result : Context H → Type 0
      Result r =
          Ends 1 r
          ⊎ (Ends 0 r
              × ((c : Context H) × (code : ℤ) × (execute t.chain (innermost t.handler)
                      (context t.req t.resp t.writer)
                    ≡ returned c code)
                  × (c.streaming_handoff ≡ true)))

      go :
          (o : Outcome (Context H))
          → execute t.chain (innermost t.handler) (context t.req t.resp t.writer) ≡ o
          → Holds (Ends 0) o
          → Result (elim o [
            | returned c code ↦ end_unless c.streaming_handoff c
            | threw c ↦ end_unless false c
          ])
      go (returned c code) e p = elim (Bool-cases c.streaming_handoff) [
        | inl off ↦ inr (rw off p, (c, code, e, off))
        | inr on ↦ inl (rw on (end_unless-Ends c p))
      ]
      go (threw c) e p = inl (end_unless-Ends c p)
