-- ===== src/Connection/Serving/Media.antt =====
-- WebRtcConnection.cpp: the media methods, on a connection that serves.
use erizo.Base.{
  ℕ, ◌+◌, ◌≡◌, ◌≤◌, refl, ◌∙◌, Bool, true, false, not, ◌||◌, List, [], ◌∷◌, Option, none, some,
  Bytes, arith, length, is_some, if◌then◌else◌, suc, ◌==◌, Option-cases, inl, inr, length-take,
  length-drop, take, drop, length-append, ◌++◌, ◌<◌,
}
use erizo.Srtp.{SrtpLibrary}
use erizo.Rtp.Fields.{length-write_be32, length-set_payloadtype}
use erizo.Rtp.Words.{write_be32}
use erizo.Rtp.RtpHeader
use erizo.Rtp.RtcpHeader
use erizo.Rtp.RtcpHeader.{is_rtcp}
use erizo.Rtp.RedHeader.{red_90000_pt}
use erizo.Sdp.PtMap.{PtMap, at, touch, at-touch}
use erizo.Sdp.Types.{RtpMap, SdpInfo, MediaType, audio_type, video_type, other}
use erizo.Sdp.Codecs.{support_payload_type, scan_payloads}
use erizo.Transport.Base.{transport_ready}
use erizo.Connection.State.{Connection}
use erizo.Connection.Media.{
  has_ssrc, has_header, holds_ssrc, write_ssrc, map_payloadtype, touched, red_walk,
  rtp_header_length, strip_red, overwrite, outgoing_video, deliver_audio_data, deliver_video_data,
  feedback_packet, deliver_feedback, fir_packet, send_fir_packet, deliver_bundled, deliver_of,
  transport_media, on_transport_data,
}
use erizo.Connection.RedWalk.{red_walk_last}
use erizo.Connection.StripRed.{in_bounds}
use erizo.Connection.Serving.{IsServing, Serves, write_video-Serves, write_audio-Serves}
use erizo.Connection.Serving.State.{update_state-IsServing}

length-write_ssrc : (buf : Bytes) (ssrc : ℕ) → length (write_ssrc buf ssrc) ≡ length buf
unfolding write_ssrc RtcpHeader.set_ssrc RtpHeader.set_ssrc
length-write_ssrc buf ssrc =
    ground (arith, length-write_be32 buf 4 ssrc, length-write_be32 buf 8 ssrc)

length-map_payloadtype : (m : PtMap) (buf : Bytes) → length (map_payloadtype m buf) ≡ length buf
unfolding map_payloadtype
length-map_payloadtype m buf =
    ground (arith, length-set_payloadtype buf (at m (RtpHeader.payloadtype buf)))

map_payloadtype_same :
    (m n : PtMap) (buf : Bytes)
    → ((k : ℕ) → at n k ≡ at m k)
    → map_payloadtype n buf ≡ map_payloadtype m buf
unfolding map_payloadtype
map_payloadtype_same m n buf h = rw (h (RtpHeader.payloadtype buf)) refl

has_ssrc_of : (buf : Bytes) → 12 ≤ length buf → has_ssrc buf ≡ true
has_ssrc_of buf b = ground arith

has_header_of : (buf : Bytes) → 12 ≤ length buf → has_header buf ≡ true
has_header_of buf b = ground arith

holds_ssrc_of : (bundle : Bool) (buf : Bytes) → 12 ≤ length buf → holds_ssrc bundle buf ≡ true
holds_ssrc_of bundle buf b = ground arith

take_fits : (xs : Bytes) (n : ℕ) {l : ℕ} → n ≤ l → length (take n xs) ≤ l
take_fits xs n {l} h = omega (arith, length-take n xs)

-- A packet that is not RED after its payload type is mapped, or whose RED headers end inside it.
abbrev pub is_readable : Bytes → Bool
is_readable buf =
    not (RtpHeader.payloadtype buf == red_90000_pt)
    || is_some (red_walk (suc (length buf)) buf (rtp_header_length buf))

at-scan_payloads :
    (rtps : List RtpMap) (pt : ℕ) (n : PtMap) (k : ℕ) → at (scan_payloads rtps pt n).0 k ≡ at n k
unfolding scan_payloads
at-scan_payloads [] pt n k = refl
at-scan_payloads (rtp ∷ rest) pt n k =
    ground
      (arith, at-scan_payloads rest pt (touch n rtp.payload_type) k, at-touch n rtp.payload_type k)

at-support_payload_type :
    (sdp : SdpInfo) (pt k : ℕ)
    → at (support_payload_type sdp pt).0.in_out_pt_map k ≡ at sdp.in_out_pt_map k
unfolding support_payload_type
at-support_payload_type sdp pt k =
    ground (arith, at-scan_payloads sdp.payload_vector pt sdp.in_out_pt_map k)

copied_long :
    (buffer head payload : Bytes) (total : ℕ)
    → length head ≤ total
    → length head ≤ length (overwrite (overwrite buffer 0 head) total payload)
copied_long buffer head payload total h = omega (
  arith,
  length-append (take total (head ++ drop (0 + length head) buffer))
      (payload ++ drop (total + length payload) (head ++ drop (0 + length head) buffer)),
  length-take total (head ++ drop (0 + length head) buffer),
  length-append head (drop (0 + length head) buffer),
)

header_long : (buf : Bytes) → 12 ≤ rtp_header_length buf
unfolding rtp_header_length
header_long buf = ground arith

-- What `strip_red` sends holds an RTP header.
stripped_long :
    (buffer buf payload : Bytes) (total pt : ℕ)
    → rtp_header_length buf ≤ total
    → total < length buf
    → 12
      ≤ length (
          take (rtp_header_length buf + length payload) (
            RtpHeader.set_payloadtype
              (overwrite (overwrite buffer 0 (take (rtp_header_length buf) buf)) total payload)
              pt))
stripped_long buffer buf payload total pt up inside =
    let head = take (rtp_header_length buf) buf in
    let copied = overwrite (overwrite buffer 0 head) total payload in
    let n : length head ≡ rtp_header_length buf =
      omega (arith, length-take (rtp_header_length buf) buf) in
    omega (
      arith,
      n,
      header_long buf,
      copied_long buffer head payload total (omega (arith, n)),
      length-set_payloadtype copied pt,
      length-take (rtp_header_length buf + length payload) (RtpHeader.set_payloadtype copied pt),
    )

module _ {S : Type 0} (lib : SrtpLibrary S) (m : PtMap) where
  -- What is sent fits the buffers of the transports.
  abbrev Outgoing : Option (Connection S × Bytes) → Type 0
  Outgoing none = ⊥
  Outgoing (some (c, out)) = IsServing lib m c × (12 ≤ length out) × (length out ≤ 3000)

  with_map :
      (c : Connection S) (sdp : SdpInfo)
      → ((k : ℕ) → at sdp.in_out_pt_map k ≡ at m k)
      → IsServing lib m c
      → IsServing lib m (record c { remote_sdp = sdp })
  with_map c sdp e h = record {
    has_video = h.has_video;
    has_audio = h.has_audio;
    video_sink = h.video_sink;
    audio_sink = h.audio_sink;
    same_map = e;
  }

  strip_red-Outgoing :
      (c : Connection S) (buf : Bytes)
      → 12 ≤ length buf
      → length buf ≤ 3000
      → is_some (red_walk (suc (length buf)) buf (rtp_header_length buf)) ≡ true
      → IsServing lib m c
      → Outgoing (strip_red c buf)
  unfolding strip_red
  strip_red-Outgoing c buf b l w h =
      elim (Option-cases (red_walk (suc (length buf)) buf (rtp_header_length buf))) [
        | inl e ↦ cc (rw e at w)
        | inr (total, e) ↦ rw e (
            let (up, inside, last) =
              red_walk_last (suc (length buf)) buf (rtp_header_length buf) e in
            rw (in_bounds buf total inside (omega arith)) (
              record {
                has_video = h.has_video;
                has_audio = h.has_audio;
                video_sink = h.video_sink;
                audio_sink = h.audio_sink;
                same_map = λ k. at-touch c.remote_sdp.in_out_pt_map _ k ∙ h.same_map k;
              },
              stripped_long c.deliver_media_buffer buf (drop (total + 1) buf) total _ up inside,
              take_fits _ (rtp_header_length buf + length (drop (total + 1) buf))
                  (omega (arith, length-drop (total + 1) buf)),
            ))
      ]

  Outgoing-if :
      (b : Bool) (x y : Option (Connection S × Bytes))
      → (b ≡ true → Outgoing x)
      → (b ≡ false → Outgoing y)
      → Outgoing (if b then x else y)
  Outgoing-if true x y f g = f refl
  Outgoing-if false x y f g = g refl

  outgoing_video-Outgoing :
      (c : Connection S) (buf : Bytes)
      → 12 ≤ length buf
      → length buf ≤ 3000
      → is_readable (map_payloadtype m buf) ≡ true
      → IsServing lib m c
      → Outgoing (outgoing_video c buf)
  unfolding outgoing_video
  outgoing_video-Outgoing c buf b l r h =
      let n = c.remote_sdp.in_out_pt_map in
      let same = map_payloadtype_same m n buf h.same_map in
      let mapped = map_payloadtype n buf in
      let b1 : 12 ≤ length mapped = omega (arith, length-map_payloadtype n buf) in
      let l1 : length mapped ≤ 3000 = omega (arith, length-map_payloadtype n buf) in
      let r1 : is_readable mapped ≡ true = rw same r in
      let sdp1 = record c.remote_sdp { in_out_pt_map = touched n buf } in
      let e1 : (k : ℕ) → at sdp1.in_out_pt_map k ≡ at m k = λ k. at-touch n _ k ∙ h.same_map k in
      let h1 = with_map c sdp1 e1 h in
      let pt = RtpHeader.payloadtype mapped in
      let sdp2 = (support_payload_type sdp1 pt).0 in
      let h2 = with_map c sdp2 (λ k. at-support_payload_type sdp1 pt k ∙ e1 k) h in
      Outgoing-if (not (pt == red_90000_pt)) _ _ (λ other. (h1, b1, l1))
        λ red.
          Outgoing-if (support_payload_type sdp1 pt).1 _ _ (λ known. (h2, b1, l1))
            λ unknown.
              strip_red-Outgoing (record c { remote_sdp = sdp2 }) mapped b1 l1 (ground arith) h2

  Serves-if :
      {A : Type 0} (b : Bool) (x y : Option (Connection S × A))
      → Serves lib m x
      → Serves lib m y
      → Serves lib m (if b then x else y)
  Serves-if true x y h k = h
  Serves-if false x y h k = k

  pub deliver_audio_data-Serves :
      (c : Connection S) (buf : Bytes)
      → 12 ≤ length buf
      → length buf ≤ 10000
      → IsServing lib m c
      → Serves lib m (deliver_audio_data lib c buf)
  unfolding deliver_audio_data
  deliver_audio_data-Serves c buf b l h =
      let n = c.remote_sdp.in_out_pt_map in
      let named = write_ssrc buf c.audio_sink_ssrc in
      let sdp1 = record c.remote_sdp { in_out_pt_map = touched n named } in
      let h1 = with_map c sdp1 (λ k. at-touch n _ k ∙ h.same_map k) h in
      let fits : length (map_payloadtype n named) ≤ 10000 =
        omega (arith, length-map_payloadtype n named, length-write_ssrc buf c.audio_sink_ssrc) in
      rw (has_ssrc_of buf b) (
        Serves-if c.bundle _ _
          (write_video-Serves lib m (record c { remote_sdp = sdp1 }) _ c.video_transport h.has_video
            fits h1)
          (write_audio-Serves lib m (record c { remote_sdp = sdp1 }) _ c.audio_transport h.has_audio
            fits h1))

  pub deliver_video_data-Serves :
      (c : Connection S) (buf : Bytes)
      → 12 ≤ length buf
      → length buf ≤ 3000
      → is_readable (map_payloadtype m buf) ≡ true
      → IsServing lib m c
      → Serves lib m (deliver_video_data lib c buf)
  unfolding deliver_video_data
  deliver_video_data-Serves c buf b l r h =
      let out = outgoing_video-Outgoing c buf b l r h in
      elim (Option-cases (outgoing_video c buf)) [
        | inl e ↦ absurd (rw e at out)
        | inr ((d, sent), e) ↦ rw e (
            let (k, long, fits) = rw e at out in
            rw (has_ssrc_of sent long) (
              write_video-Serves lib m d (write_ssrc sent d.video_sink_ssrc) d.video_transport
                k.has_video (omega (arith, length-write_ssrc sent d.video_sink_ssrc)) k))
      ]

  pub deliver_feedback-Serves :
      (c : Connection S) (buf : Bytes)
      → 12 ≤ length buf
      → length buf ≤ 10000
      → IsServing lib m c
      → Serves lib m (deliver_feedback lib c buf)
  unfolding deliver_feedback feedback_packet RtcpHeader.set_ssrc
  deliver_feedback-Serves c buf b l h = rw (has_header_of buf b) (
      write_video-Serves lib m c _ c.video_transport h.has_video
        (ground (
          arith,
          length-write_be32 buf 4 c.video_sink_ssrc,
          length-write_be32 buf 4 c.audio_sink_ssrc,
        ))
        h)

  pub send_fir_packet-Serves :
      (c : Connection S) → IsServing lib m c → Serves lib m (send_fir_packet lib c)
  unfolding send_fir_packet fir_packet write_be32
  send_fir_packet-Serves c h =
      write_video-Serves lib m (record c { sequence_number_fir = c.sequence_number_fir + 1 }) _
        c.video_transport h.has_video (omega arith)
        (record {
          has_video = h.has_video;
          has_audio = h.has_audio;
          video_sink = h.video_sink;
          audio_sink = h.audio_sink;
          same_map = h.same_map;
        })

  -- Other source SSRCs.
  pub with_sources :
      (c : Connection S) (video audio : ℕ)
      → IsServing lib m c
      → IsServing lib m (record c { video_source_ssrc = video; audio_source_ssrc = audio })
  with_sources c video audio h = record {
    has_video = h.has_video;
    has_audio = h.has_audio;
    video_sink = h.video_sink;
    audio_sink = h.audio_sink;
    same_map = h.same_map;
  }

  deliver_of-IsServing :
      (c : Connection S) (buf : Bytes) (media : MediaType) (from_video : Bool)
      → IsServing lib m c
      → IsServing lib m (deliver_of c buf media from_video).0
  unfolding deliver_of
  deliver_of-IsServing c buf audio_type from_video h = ground (
    arith,
    update_state-IsServing lib m (record c { audio_source_ssrc = RtpHeader.ssrc buf })
        transport_ready from_video (with_sources c c.video_source_ssrc (RtpHeader.ssrc buf) h),
  )
  deliver_of-IsServing c buf video_type from_video h = ground (
    arith,
    update_state-IsServing lib m (record c { video_source_ssrc = RtpHeader.ssrc buf })
        transport_ready from_video (with_sources c (RtpHeader.ssrc buf) c.audio_source_ssrc h),
  )
  deliver_of-IsServing c buf other from_video h = h

  transport_media-Serves :
      (c : Connection S) (buf : Bytes) (media : MediaType) (from_video : Bool)
      → 12 ≤ length buf
      → IsServing lib m c
      → Serves lib m (transport_media c buf media from_video)
  unfolding transport_media deliver_bundled
  transport_media-Serves c buf media from_video b h =
      let c1 : Connection S = record c {
        remote_sdp = record c.remote_sdp { out_in_pt_map = touched c.remote_sdp.out_in_pt_map buf };
      } in
      let h1 = with_map c c1.remote_sdp h.same_map h in
      ground (
        arith,
        holds_ssrc_of c.bundle buf b,
        h1,
        deliver_of-IsServing c1 (map_payloadtype c.remote_sdp.out_in_pt_map buf) media from_video
            h1,
      )

  pub on_transport_data-Serves :
      (c : Connection S) (buf : Bytes) (media : MediaType) (from_video : Bool)
      → 12 ≤ length buf
      → IsServing lib m c
      → Serves lib m (on_transport_data c buf media from_video)
  unfolding on_transport_data
  on_transport_data-Serves c buf media from_video b h =
      ground (arith, transport_media-Serves c buf media from_video b h)
