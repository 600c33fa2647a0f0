-- ===== src/Xds/Deliver.antt =====
-- A packet from its sender to the callback of `vbi_xds_demux_feed_frame`.
use mathlib.Core.List.{append_assoc, append-nil}
use zvbi.Xds.Invariant.{IsValid}
use zvbi.Xds.Collect.{
  caption_line, characters, total, AreContents, feed-dispatch, Collecting, Delivers,
  start-Collecting, pair-Collecting, end-Delivers,
}
use zvbi.Xds.{XdsPacket, XdsDemux, XdsResult, CaptionLine, dispatch, feed_frame}
use zvbi.Prelude.{
  ℕ, ◌+◌, ◌*◌, ◌%◌, ◌<◌, ◌≤◌, ◌≡◌, sym, List, [], ◌∷◌, ◌++◌, length, map, not, Bool, true, false,
  if◌then◌else◌, returns, ◌>>=◌, Ends, Ends-after, length-append, arith,
}

module _ (callback : XdsPacket → Bool) where
  -- The frame goes on after a result of TRUE, and ends with the answer of the callback.
  next_line :
      (D : Bool × List XdsPacket → Type 0) (lines : List CaptionLine) (fed : XdsResult)
      → fed.1 ≡ (true, [])
      → Ends (λ (r : XdsResult). D r.1) (feed_frame callback fed.0 lines)
      → Ends
          (λ (r : XdsResult). D r.1)
          (if not fed.1.0
            then returns fed
            else (feed_frame callback fed.0 lines
                >>= (λ more. returns (more.0, (more.1.0, fed.1.1 ++ more.1.1)))))
  next_line D lines fed e h = rw e (
      Ends-after (λ (r : XdsResult). D r.1) (λ (r : XdsResult). D r.1)
        (feed_frame callback fed.0 lines) (λ more. returns (more.0, (more.1.0, more.1.1))) h
        (λ a k. k))

  last_line :
      (xds_class xds_subclass : ℕ) (chars : List ℕ) (fed : XdsResult)
      → Delivers callback xds_class xds_subclass chars fed.1
      → Ends
          (λ (r : XdsResult). Delivers callback xds_class xds_subclass chars r.1)
          (if not fed.1.0 then returns fed else returns (fed.0, (true, fed.1.1 ++ [])))
  last_line xds_class xds_subclass chars (xd, (false, packets)) d = d
  last_line xds_class xds_subclass chars (xd, (true, packets)) d = rw (append-nil packets) d

  -- The lines of the contents and of the terminator.
  rest-Delivers :
      (ps : List (ℕ × ℕ)) (xd : XdsDemux) (k xds_class xds_subclass : ℕ) (chars : List ℕ)
      (sum c2 : ℕ)
      → Collecting k xds_class xds_subclass chars sum xd
      → AreContents ps
      → 1 ≤ length chars + length ps
      → length chars + 2 * length ps ≤ 32
      → c2 < 128
      → (sum + total ps + (0x0F + c2)) % 128 ≡ 0
      → Ends
          (λ r. Delivers callback xds_class xds_subclass (chars ++ characters ps) r.1)
          (feed_frame callback xd (map caption_line (ps ++ ((0x0F, c2) ∷ []))))
  unfolding feed_frame AreContents total characters
  rest-Delivers [] xd k xds_class xds_subclass chars sum c2 h contents low high fits right =
      rw (append-nil chars, feed-dispatch callback xd 0x0F c2 (omega arith) fits)
        (Ends-after (λ (r : XdsResult). Delivers callback xds_class xds_subclass chars r.1)
          (λ (r : XdsResult). Delivers callback xds_class xds_subclass chars r.1)
          (dispatch callback xd 0x0F c2) _
          (end-Delivers callback xd k xds_class xds_subclass chars sum c2 h (omega arith)
            (omega arith) (omega arith))
          (last_line xds_class xds_subclass chars))
  rest-Delivers (p ∷ ps) xd k xds_class xds_subclass chars sum c2 h contents low high fits right =
      let more = chars ++ (p.0 ∷ p.1 ∷ []) in
      let long : length more ≡ length chars + 2 =
        omega (arith, length-append chars (p.0 ∷ p.1 ∷ [])) in
      let c = contents.0 in
      let lines = map caption_line (ps ++ ((0x0F, c2) ∷ [])) in
      rw
        (
          sym (append_assoc chars (p.0 ∷ p.1 ∷ []) (characters ps)),
          feed-dispatch callback xd p.0 p.1 c.1 c.3,
        )
        (Ends-after
          (λ (r : XdsResult).
            Collecting k xds_class xds_subclass more (sum + (p.0 + p.1)) r.0 × (r.1 ≡ (true, [])))
          (λ (r : XdsResult). Delivers callback xds_class xds_subclass (more ++ characters ps) r.1)
          (dispatch callback xd p.0 p.1) _
          (pair-Collecting callback xd k xds_class xds_subclass chars sum p.0 p.1 h (omega arith)
            c.0 c.2)
          (λ fed d.
            next_line (Delivers callback xds_class xds_subclass (more ++ characters ps)) lines fed
              d.1
              (rest-Delivers ps fed.0 k xds_class xds_subclass more (sum + (p.0 + p.1)) c2 d.0
                contents.1 (omega (arith, long)) (omega (arith, long)) fits (omega arith))))

-- The lines of a packet: its header, the pairs of its contents and the terminator.
abbrev pub packet_lines : ℕ → ℕ → List (ℕ × ℕ) → ℕ → List CaptionLine
packet_lines xds_class xds_subclass ps c2 =
    map caption_line ((xds_class * 2 + 1, xds_subclass) ∷ (ps ++ ((0x0F, c2) ∷ [])))

-- A valid demultiplexer is fed the lines of a packet of class 0 to 3 and a subclass below
-- 0x18: its header, one to 16 pairs of contents that do not end with a null, and the
-- terminator with the character that makes the sum of all a multiple of 128. Then the
-- callback is called once, with the class, the subclass and the characters of the pairs in
-- order, and a null behind them, and vbi_xds_demux_feed_frame returns what the callback
-- answers.
pub feed_frame-Delivers :
    (callback : XdsPacket → Bool) (xd : XdsDemux) (xds_class xds_subclass : ℕ) (ps : List (ℕ × ℕ))
    (c2 : ℕ)
    → IsValid xd
    → xds_class ≤ 3
    → xds_subclass < 0x18
    → AreContents ps
    → 1 ≤ length ps
    → length ps ≤ 16
    → c2 < 128
    → (xds_class * 2 + 1 + xds_subclass + total ps + (0x0F + c2)) % 128 ≡ 0
    → Ends
        (λ r. Delivers callback xds_class xds_subclass (characters ps) r.1)
        (feed_frame callback xd (packet_lines xds_class xds_subclass ps c2))
unfolding feed_frame
feed_frame-Delivers callback xd xds_class xds_subclass ps c2 v hc hs contents low high fits right =
    let k : ℕ = xds_class * 24 + xds_subclass in
    let lines = map caption_line (ps ++ ((0x0F, c2) ∷ [])) in
    rw (feed-dispatch callback xd (xds_class * 2 + 1) xds_subclass (omega arith) (omega arith)) (
      Ends-after
        (λ (r : XdsResult).
          Collecting k xds_class xds_subclass [] (xds_class * 2 + 1 + xds_subclass) r.0
          × (r.1 ≡ (true, [])))
        (λ (r : XdsResult). Delivers callback xds_class xds_subclass (characters ps) r.1)
        (dispatch callback xd (xds_class * 2 + 1) xds_subclass) _
        (start-Collecting callback xd xds_class xds_subclass v hc hs)
        (λ fed d.
          next_line callback (Delivers callback xds_class xds_subclass (characters ps)) lines fed
            d.1
            (rest-Delivers callback ps fed.0 k xds_class xds_subclass []
              (xds_class * 2 + 1 + xds_subclass) c2 d.0 contents (omega arith) (omega arith) fits
              right)))
