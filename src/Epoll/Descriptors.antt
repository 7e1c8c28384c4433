-- ===== src/Epoll/Descriptors.antt =====
-- Which descriptors `start` and `stop` of the epoll server close, and how often.
use event_stream_core.Common.{
  ℕ, zero, suc, ◌+◌, ◌-◌, ◌≡◌, refl, ap, ◌∙◌, ◌⊎◌, inl, inr, Bool, true, false, not, ◌&&◌, Option,
  none, some, List, [], ◌∷◌, ◌++◌, arith, if◌then◌else◌, length, replicate, length-replicate,
}
use event_stream_core.Epoll.Start.{
  SystemCalls, EpollSockets, constructed, resize, write_epolls, created, all_created, close_server,
  create_epolls, set_up, with_socket, start, descriptors, stop_sockets,
}

write_all :
    (rs : List (Option ℕ)) (fds : List (Option ℕ))
    → length fds ≡ length rs
    → all_created rs ≡ true
    → descriptors (write_epolls rs fds) ≡ created rs
unfolding write_epolls all_created created descriptors
write_all [] [] h e = refl
write_all [] (old ∷ fds) h e = absurd (omega (arith, h))
write_all (r ∷ rs) [] h e = absurd (omega (arith, h))
write_all (none ∷ rs) (old ∷ fds) h e = cc
write_all (some fd ∷ rs) (old ∷ fds) h e = ap (λ l. fd ∷ l) (write_all rs fds (omega (arith, h)) e)

-- What a failure leaves behind the place at which it stops: the zeros of `resize`.
write_some :
    (rs : List (Option ℕ))
    → all_created rs ≡ false
    → descriptors (write_epolls rs (replicate (length rs) (some 0)))
      ≡ created rs ++ replicate (length rs - (length (created rs) + 1)) 0
unfolding write_epolls all_created created descriptors
write_some [] e = cc
write_some (none ∷ rs) e = zeros (length rs) ∙ ap (λ n. replicate n 0) (omega arith)
  where
    zeros : (n : ℕ) → descriptors (replicate n (some 0)) ≡ replicate n 0
    zeros zero = refl
    zeros (suc n) = ap (λ l. 0 ∷ l) (zeros n)
write_some (some fd ∷ rs) e =
    ap (λ l. fd ∷ l) (write_some rs e) ∙ ap (λ n. fd ∷ (created rs ++ replicate n 0)) (omega arith)

resize-nil : (n : ℕ) → resize n [] ≡ replicate n (some 0)
resize-nil zero = refl
resize-nil (suc n) = let e : suc n - 0 ≡ suc n = omega arith in ap (λ m. replicate m (some 0)) e

all_lem :
    (rs : List (Option ℕ))
    → all_created rs ≡ true
    → descriptors (write_epolls rs (resize (length rs) [])) ≡ created rs
all_lem rs e =
    ap (λ fds. descriptors (write_epolls rs fds)) (resize-nil (length rs))
    ∙ write_all rs (replicate (length rs) (some 0)) (length-replicate (length rs) (some 0)) e

some_lem :
    (rs : List (Option ℕ))
    → all_created rs ≡ false
    → descriptors (write_epolls rs (resize (length rs) []))
      ≡ created rs ++ replicate (length rs - (length (created rs) + 1)) 0
some_lem rs e =
    ap (λ fds. descriptors (write_epolls rs fds)) (resize-nil (length rs)) ∙ write_some rs e

module _ (k : SystemCalls) (fd : ℕ) where
  -- Whether everything went well up to an `epoll_create1`, which failed.
  abbrev pub fails_late : Bool
  fails_late = (k.non_blocking && (k.binds && k.listens)) && not (all_created k.epolls)

  -- The server whose `start` got the socket `fd`.
  abbrev pub after_start : EpollSockets
  after_start = start (record k { socket = some fd }) constructed

  abbrev pub after_stop : EpollSockets
  after_stop = stop_sockets after_start

  abbrev bound : EpollSockets
  bound = record constructed { is_running = true; server_fd = some fd; opened = fd ∷ [] }

  abbrev Closes : EpollSockets → Bool → Type 0
  Closes v true =
      (v.opened ≡ fd ∷ created k.epolls)
      × (v.closed
          ≡ (created k.epolls ++ fd ∷ [])
            ++ (created k.epolls
                ++ replicate (length k.epolls - (length (created k.epolls) + 1)) 0))
  Closes v false = v.closed ≡ v.opened

  created_lem :
      (b : Bool)
      → all_created k.epolls ≡ b
      → Closes (stop_sockets (create_epolls k.epolls bound)) (not b)
  unfolding create_epolls close_server stop_sockets
  created_lem true e = rw e (ap (λ l. fd ∷ l) (all_lem k.epolls e))
  created_lem false e =
      rw e (refl, ap (λ l. (created k.epolls ++ fd ∷ []) ++ l) (some_lem k.epolls e))

  set_up_lem :
      (b c : Bool)
      → all_created k.epolls ≡ c
      → Closes
          (stop_sockets (if b then create_epolls k.epolls bound else close_server bound (some fd)))
          (b && not c)
  unfolding close_server stop_sockets
  set_up_lem true c e = created_lem c e
  set_up_lem false c e = refl

  -- A server that has got its socket, is started and is then stopped has closed each descriptor that it
  -- opened, once and in order, but for one case: where an `epoll_create1` fails, it closes the epoll
  -- descriptors created before a second time, and the descriptor 0 once for each worker behind the one that
  -- failed.
  pub descriptors_lem :
      ((fails_late ≡ false) × (after_stop.closed ≡ after_stop.opened))
      ⊎ ((fails_late ≡ true)
          × (after_stop.opened ≡ fd ∷ created k.epolls)
          × (after_stop.closed
              ≡ (created k.epolls ++ fd ∷ [])
                ++ (created k.epolls
                    ++ replicate (length k.epolls - (length (created k.epolls) + 1)) 0)))
  unfolding start with_socket set_up
  descriptors_lem =
      by_case fails_late refl
        (set_up_lem (k.non_blocking && (k.binds && k.listens)) (all_created k.epolls) refl)
    where
      by_case :
          (b : Bool)
          → fails_late ≡ b
          → Closes after_stop b
          → ((fails_late ≡ false) × (after_stop.closed ≡ after_stop.opened))
            ⊎ ((fails_late ≡ true)
                × (after_stop.opened ≡ fd ∷ created k.epolls)
                × (after_stop.closed
                    ≡ (created k.epolls ++ fd ∷ [])
                      ++ (created k.epolls
                          ++ replicate (length k.epolls - (length (created k.epolls) + 1)) 0)))
      by_case false e h = inl (e, h)
      by_case true e (opens, closes) = inr (e, opens, closes)
