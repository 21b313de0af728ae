-- ===== src/Wal/Store/Backlog.antt =====
-- When `has_backlog` of statix/src/wal/mod.rs sees what is left to replay.
use statix.Prelude.{
  ℕ, ◌+◌, ◌≤◌, ◌<◌, ◌≡◌, ◌≢◌, refl, ap, sym, ◌∙◌, inl, inr, true, false, none, some, List, [], ◌∷◌,
  ◌++◌, length, last?, arith, append-nil, length-append,
}
use statix.Wal.Segment.{DecodedFrame, segment_header_len, frame_len_on_disk}
use statix.Wal.Segment.RoundTrip.{encode_frame, length-encode_frame}
use statix.Wal.Store.{WalInner, ActiveSegment, has_backlog, behind}
use statix.Wal.Store.Layout.{
  Group, Layout, Represents, encode_all, bytes_of, AtFront, CursorOk, ActiveOk,
}
use statix.Wal.Store.Tail.{active_last, first_le, encode_all-append_all}

module _ (hash : List ℕ → ℕ) where
  encode_frame_nonempty : (f : DecodedFrame) → 1 ≤ length (encode_frame hash f)
  unfolding frame_len_on_disk
  encode_frame_nonempty f = omega (arith, length-encode_frame hash f)

  behind_rest :
      (read_seq read_offset : ℕ) (g : Group) (a : ActiveSegment) (past : List DecodedFrame)
      (f : DecodedFrame) (rest : List DecodedFrame)
      → past ++ f ∷ rest ≡ g.frames
      → read_offset ≡ segment_header_len + length (encode_all hash past)
      → a.offset ≡ bytes_of hash g
      → behind read_seq read_offset (some a) ≡ true
  behind_rest read_seq read_offset g a past f rest split reached end =
      let size : a.offset
          ≡ segment_header_len
            + length (encode_all hash past ++ (encode_frame hash f ++ encode_all hash rest)) =
        end
        ∙ (ap (λ fs. segment_header_len + length (encode_all hash fs)) (sym split)
            ∙ ap (λ b. segment_header_len + length b)
                (encode_all-append_all hash past (f ∷ rest))) in
      let some_left : read_offset < a.offset = omega (
        arith,
        size,
        reached,
        encode_frame_nonempty f,
        length-append (encode_all hash past) (encode_frame hash f ++ encode_all hash rest),
        length-append (encode_frame hash f) (encode_all hash rest),
      ) in
      ground arith

  AtFront-behind :
      (g : Group) (gs : List Group) (w : WalInner) (a : ActiveSegment) (q : List DecodedFrame)
      → Layout hash (g ∷ gs) w q
      → ActiveOk hash (some a) (last? (g ∷ gs))
      → q ≢ []
      → AtFront hash w.read_seq w.read_offset w.pending_advance q g gs
      → behind w.read_seq w.read_offset (some a) ≡ true
  AtFront-behind g [] w a q l ok left f = by_rest f.rest refl
    where
      by_rest :
          (rest : List DecodedFrame)
          → f.rest ≡ rest
          → behind w.read_seq w.read_offset (some a) ≡ true
      by_rest [] e = absurd (left (f.queue ∙ (append-nil f.rest ∙ e)))
      by_rest (k ∷ rest) e =
          behind_rest w.read_seq w.read_offset g a f.past k rest
            (ap (λ r. f.past ++ r) (sym e) ∙ f.split) f.reached (ok.1).1
  AtFront-behind g (k ∷ gs) w a q l ok left f =
      let later : g.seq < a.seq = active_last hash g.seq (k ∷ gs) a (l.chain.1).0 ok in
      ground (arith, f.on_front)

  -- While there is an active segment, the drainer is told of a backlog whenever a frame is left to
  -- replay. While there is none, as after a rotation that failed, it is told that there is none,
  -- whatever is left.
  pub has_backlog_lem :
      (w : WalInner) (q : List DecodedFrame)
      → Represents hash w q
      → q ≢ []
      → ((a : ActiveSegment) → w.active ≡ some a → has_backlog w ≡ true)
        × (w.active ≡ none → has_backlog w ≡ false)
  unfolding has_backlog
  has_backlog_lem w q ([], l) left = absurd (left l.cursor.queue)
  has_backlog_lem w q (g ∷ gs, l) left = (with_active, λ h. rw h refl)
    where
      with_active : (a : ActiveSegment) → w.active ≡ some a → has_backlog w ≡ true
      with_active a h = by_cursor (rw h at l.active) l.cursor
        where
          by_cursor :
              ActiveOk hash (some a) (last? (g ∷ gs))
              → CursorOk hash w.read_seq w.read_offset w.pending_advance w.next_seq q (g ∷ gs)
              → has_backlog w ≡ true
          by_cursor ok (inl b) =
              let first = first_le hash g gs a (l.chain.1).0 ok in rw h (ground (arith, b.gone))
          by_cursor ok (inr f) = rw h (AtFront-behind g gs w a q l ok left f)
