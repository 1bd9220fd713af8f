-- ===== src/Kv/Delivery.antt =====
-- What the handler of a watch (consumeWatch of internal/kv/watch.go) is called with, and when.
use tip_olg_nats_agent_core.Common.{
  String, Bool, true, false, List, [], ◌∷◌, ◌++◌, map, ◌≡◌, refl, sym, ap, ◌∙◌, arith,
}
use tip_olg_nats_agent_core.Strings.{Unicode}
use tip_olg_nats_agent_core.Errors.{Error}
use tip_olg_nats_agent_core.Results.{Result, ok, err}
use tip_olg_nats_agent_core.Kv.{StoredDesiredConfig, Json, Entry}
use tip_olg_nats_agent_core.Kv.Watch.{
  Signal, ctx_done, updates_closed, initial_done, update, Act, marks_ready, handles, reports,
  stored_of, call_handler, flush, consume_watch,
}

-- The values that the handler is called with, in order.
abbrev pub handled : List Act → List StoredDesiredConfig
handled [] = []
handled (marks_ready ∷ acts) = handled acts
handled (handles stored ∷ acts) = stored ∷ handled acts
handled (reports e ∷ acts) = handled acts

handled-append : (xs ys : List Act) → handled (xs ++ ys) ≡ handled xs ++ handled ys
handled-append [] ys = refl
handled-append (marks_ready ∷ xs) ys = handled-append xs ys
handled-append (handles x ∷ xs) ys = ap (λ l. x ∷ l) (handled-append xs ys)
handled-append (reports e ∷ xs) ys = handled-append xs ys

append_assoc : {A : Type 0} (xs ys zs : List A) → (xs ++ ys) ++ zs ≡ xs ++ (ys ++ zs)
append_assoc [] ys zs = refl
append_assoc (x ∷ xs) ys zs = ap (λ l. x ∷ l) (append_assoc xs ys zs)

-- The accepted one, put before the others.
abbrev pub keep : Result StoredDesiredConfig → List StoredDesiredConfig → List StoredDesiredConfig
keep (err e) rest = rest
keep (ok stored) rest = stored ∷ rest

module _ (u : Unicode) (j : Json) (target : String) where
  -- The entries that are accepted, in order: each whose value decodes or that is of a removed key.
  unfoldable pub accepted : List Entry → List StoredDesiredConfig
  accepted [] = []
  accepted (e ∷ rest) = keep (stored_of u j target e) (accepted rest)

  -- The entries that are seen before the watch ends.
  unfoldable pub seen : List Signal → List Entry
  seen [] = []
  seen (ctx_done ∷ rest) = []
  seen (updates_closed e ∷ rest) = []
  seen (initial_done ∷ rest) = seen rest
  seen (update e ∷ rest) = e ∷ seen rest

  module _ (handler : StoredDesiredConfig → Error) where
    handled-call : (x : StoredDesiredConfig) → handled (call_handler u j target handler x) ≡ x ∷ []
    unfolding call_handler
    handled-call x = ground arith

    handled_next :
        (x : StoredDesiredConfig) (acts : List Act)
        → handled (call_handler u j target handler x ++ acts) ≡ x ∷ handled acts
    handled_next x acts =
        handled-append (call_handler u j target handler x) acts
        ∙ ap (λ l. l ++ handled acts) (handled-call x)

    handled-flush : (l : List StoredDesiredConfig) → handled (flush u j target handler l) ≡ l
    unfolding flush
    handled-flush [] = refl
    handled-flush (x ∷ l) =
        handled_next x (flush u j target handler l) ∙ ap (λ k. x ∷ k) (handled-flush l)

    abbrev run : Bool → List StoredDesiredConfig → List Signal → List StoredDesiredConfig
    run is_ready buffer signals = handled (consume_watch u j target handler is_ready buffer signals)

    ready_entry :
        (e : Entry) (rest : List Signal) (r : Result StoredDesiredConfig)
        (tail : List StoredDesiredConfig)
        → stored_of u j target e ≡ r
        → run true [] rest ≡ tail
        → run true [] (update e ∷ rest) ≡ keep r tail
    unfolding consume_watch
    ready_entry e rest (err x) tail h ih = rw (h, consume_watch) ih
    ready_entry e rest (ok x) tail h ih =
        rw (h, consume_watch)
          (handled_next x (consume_watch u j target handler true [] rest) ∙ ap (λ l. x ∷ l) ih)

    ready_lem : (signals : List Signal) → run true [] signals ≡ accepted (seen signals)
    unfolding consume_watch seen accepted flush
    ready_lem [] = refl
    ready_lem (ctx_done ∷ rest) = refl
    ready_lem (updates_closed e ∷ rest) = ground arith
    ready_lem (initial_done ∷ rest) = ready_lem rest
    ready_lem (update e ∷ rest) =
        ready_entry e rest (stored_of u j target e) (accepted (seen rest)) refl (ready_lem rest)

    keep-append :
        (r : Result StoredDesiredConfig) (xs ys : List StoredDesiredConfig)
        → keep r xs ++ ys ≡ keep r (xs ++ ys)
    keep-append (err e) xs ys = refl
    keep-append (ok x) xs ys = refl

    waiting_entry :
        (e : Entry) (buffer : List StoredDesiredConfig) (rest : List Signal)
        (r : Result StoredDesiredConfig) (tail : List StoredDesiredConfig)
        → stored_of u j target e ≡ r
        → ((kept : List StoredDesiredConfig) → run false kept rest ≡ kept ++ tail)
        → run false buffer (update e ∷ rest) ≡ buffer ++ keep r tail
    unfolding consume_watch
    waiting_entry e buffer rest (err x) tail h ih = rw (h, consume_watch) (ih buffer)
    waiting_entry e buffer rest (ok x) tail h ih =
        rw (h, consume_watch) (ih (buffer ++ x ∷ []) ∙ append_assoc buffer (x ∷ []) tail)

    waiting_lem :
        (entries : List Entry) (rest : List Signal) (buffer : List StoredDesiredConfig)
        → run false buffer (map update entries ++ initial_done ∷ rest)
          ≡ buffer ++ (accepted entries ++ accepted (seen rest))
    unfolding consume_watch accepted
    waiting_lem [] rest buffer =
        handled-append (flush u j target handler buffer)
          (consume_watch u j target handler true [] rest)
        ∙ ap (λ l. l ++ run true [] rest) (handled-flush buffer)
        ∙ ap (λ l. buffer ++ l) (ready_lem rest)
    waiting_lem (e ∷ entries) rest buffer =
        waiting_entry e buffer (map update entries ++ initial_done ∷ rest) (stored_of u j target e)
          _ refl (waiting_lem entries rest)
        ∙ ap (λ l. buffer ++ l)
            (sym (keep-append (stored_of u j target e) (accepted entries) (accepted (seen rest))))

    silent_entry :
        (e : Entry) (buffer : List StoredDesiredConfig) (rest : List Signal)
        (r : Result StoredDesiredConfig)
        → stored_of u j target e ≡ r
        → ((kept : List StoredDesiredConfig) → run false kept rest ≡ [])
        → run false buffer (update e ∷ rest) ≡ []
    unfolding consume_watch
    silent_entry e buffer rest (err x) h ih = rw (h, consume_watch) (ih buffer)
    silent_entry e buffer rest (ok x) h ih = rw (h, consume_watch) (ih (buffer ++ x ∷ []))

    silent_lem :
        (entries : List Entry) (buffer : List StoredDesiredConfig)
        → run false buffer (map update entries) ≡ []
    unfolding consume_watch
    silent_lem [] buffer = refl
    silent_lem (e ∷ entries) buffer =
        silent_entry e buffer (map update entries) (stored_of u j target e) refl
          (silent_lem entries)

    -- Before the mark that ends the present values the handler is not called, whatever entries come;
    -- with the mark it is called for each accepted entry that came before it and then for each that
    -- comes after it until the watch ends, once each and in the order in which they came. Whether a
    -- call of the handler fails changes nothing in this.
    pub consume_watch-handled :
        (entries : List Entry) (rest : List Signal)
        → (handled (consume_watch u j target handler false [] (map update entries)) ≡ [])
          × (handled (
                consume_watch u j target handler false []
                  (map update entries ++ initial_done ∷ rest))
              ≡ accepted entries ++ accepted (seen rest))
    consume_watch-handled entries rest = (silent_lem entries [], waiting_lem entries rest [])
