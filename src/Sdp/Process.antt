-- ===== src/Sdp/Process.antt =====
-- src/erizo/SdpInfo.cpp: `processSdp` and `initWithSdp`.
use erizo.Base.{Option, some, List, [], ◌∷◌, map, Bytes, ◌>>=◌}
use erizo.Text.CString.{lines}
use erizo.Sdp.Types.{MediaType, other, CandidateInfo, SdpInfo}
use erizo.Sdp.Lines.{process_line}

unfoldable pub process_lines : SdpInfo × MediaType → List Bytes → Option (SdpInfo × MediaType)
process_lines s [] = some s
process_lines s (l ∷ ls) = do t ← process_line s l; process_lines t ls

-- The loop behind the parse: each candidate gets the credentials and the bundle flag.
abbrev pub complete : SdpInfo → CandidateInfo → CandidateInfo
complete sdp c = record c {
  username = sdp.ice_username;
  password = sdp.ice_password;
  is_bundle = sdp.is_bundle;
}

-- `processSdp`, and `initWithSdp`, which only calls it. (Both always return true.)
unfoldable pub process_sdp : SdpInfo → Bytes → Option SdpInfo
unfolding process_lines
process_sdp sdp text = do
  (parsed, mtype) ← process_lines (sdp, other) (lines text)
  some (record parsed { candidate_vector = map (complete parsed) parsed.candidate_vector })
