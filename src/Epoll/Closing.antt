-- ===== src/Epoll/Closing.antt =====
-- Which connections a worker closes.
use event_stream_core.Common.{
  ℕ, ◌≡◌, refl, subst, ◌∙◌, ◌≢◌, Bool, true, false, not, ◌&&◌, ◌||◌, Option, none, some,
  if◌then◌else◌, Bytes,
}
use event_stream_core.Epoll.{
  ConnectionState, keeps_open, EpollServer, Ready, find, close_connection, close_unless, read_into,
  handle_read, handle_ready,
}
use event_stream_core.Epoll.Lookup.{IsDistinct, find-erase_ne, find-erase, find-assign_ne}
use event_stream_core.Epoll.Connections.{IsValid, read_into-IsValid, read_into-known}

-- An error, a hangup, or a read that ends with the peer gone or in an error.
abbrev pub closes : Ready → Bool
closes r = r.hang_up || (r.readable && not (keeps_open r.read_end))

module _ {ℓ} {S : Type ℓ} where
  -- What became of descriptor `fd` when it was to be closed or not, and of all others.
  abbrev pub Settled : ℕ → Bool → EpollServer S → EpollServer S → Type 0
  Settled fd shut v v' =
      (shut ≡ true → find fd v'.connections ≡ none)
      × (shut ≡ false → find fd v'.connections ≢ none)
      × ((other : ℕ) → other ≢ fd → find other v'.connections ≡ find other v.connections)

  close_connection-Settled :
      (fd : ℕ) (v w : EpollServer S)
      → IsDistinct w.connections
      → ((other : ℕ) → other ≢ fd → find other w.connections ≡ find other v.connections)
      → Settled fd true v (close_connection fd w)
  unfolding close_connection
  close_connection-Settled fd v w d same = (
    λ _. find-erase fd w.connections d,
    λ e. cc,
    λ other ne. find-erase_ne fd other w.connections ne ∙ same other ne,
  )

  close_unless-Settled :
      (fd : ℕ) (v : EpollServer S) (p : EpollServer S × Bool)
      → IsValid p.0
      → find fd p.0.connections ≢ none
      → ((other : ℕ) → other ≢ fd → find other p.0.connections ≡ find other v.connections)
      → Settled fd (not p.1) v (close_unless fd p)
  unfolding close_unless
  close_unless-Settled fd v (w, true) h known same = (λ e. cc, λ _. known, same)
  close_unless-Settled fd v (w, false) h known same =
      close_connection-Settled fd v w h.distinct same

  module _ (on_frame : Bytes → Bytes → S → S) (r : Ready) (v : EpollServer S) where
    read_into_others :
        (found : Option ConnectionState) (other : ℕ)
        → other ≢ r.fd
        → find other (read_into on_frame r v found).0.connections ≡ find other v.connections
    unfolding read_into
    read_into_others none other ne = refl
    read_into_others (some state) other ne = find-assign_ne r.fd other _ v.connections ne

    read_into-keeps_open :
        (found : Option ConnectionState)
        → found ≢ none
        → (read_into on_frame r v found).1 ≡ keeps_open r.read_end
    unfolding read_into
    read_into-keeps_open none h = absurd (h refl)
    read_into-keeps_open (some state) h = refl

    read-Settled :
        find r.fd v.connections ≢ none
        → IsValid v
        → Settled r.fd
            (not (keeps_open r.read_end))
            v
            (close_unless r.fd (handle_read on_frame r v))
    unfolding handle_read
    read-Settled known h =
        let found = find r.fd v.connections in
        let p = read_into on_frame r v found in
        subst (λ b. Settled r.fd (not b) v (close_unless r.fd p)) (read_into-keeps_open found known)
          (close_unless-Settled r.fd v p (read_into-IsValid on_frame r v found h)
            (read_into-known on_frame r v found known) (read_into_others found))

    if-Settled :
        (b c shut : Bool) (x y : EpollServer S)
        → Settled r.fd true v x
        → Settled r.fd shut v y
        → find r.fd v.connections ≢ none
        → Settled r.fd (b || (c && shut)) v (if b then x else if c then y else v)
    if-Settled true c shut x y p q known = p
    if-Settled false true shut x y p q known = q
    if-Settled false false shut x y p q known = (λ e. cc, λ _. known, λ other ne. refl)

    -- A worker drops a connection exactly when its descriptor reports an error or a hangup, or a
    -- read finds the peer gone or fails, and it leaves every other connection as it was.
    pub handle_ready-Settled :
        find r.fd v.connections ≢ none
        → IsValid v
        → Settled r.fd (closes r) v (handle_ready on_frame r v)
    unfolding handle_ready
    handle_ready-Settled known h =
        if-Settled r.hang_up r.readable (not (keeps_open r.read_end)) _ _
          (close_connection-Settled r.fd v v h.distinct (λ other ne. refl)) (read-Settled known h)
          known
