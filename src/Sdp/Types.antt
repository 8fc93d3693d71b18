-- ===== src/Sdp/Types.antt =====
-- src/erizo/SdpInfo.h: the data of a session description. An `unsigned int` is a number; an `int`
-- that is only compared for equality is kept as its 32-bit pattern. A field that no constructor
-- sets has a value here that nothing reads before it is written, but for `relay_port`, which may
-- stay unset.
use erizo.Base.{ℕ, Bool, false, Option, none, List, [], Bytes}
use erizo.Sdp.PtMap.{PtMap}

pub data HostType : Type 0 where
  host srlfx prflx relay : HostType

pub data MediaType : Type 0 where
  video_type audio_type other : MediaType

pub data Profile : Type 0 where
  avpf savpf : Profile

abbrev pub is_media : MediaType → MediaType → Bool
is_media video_type video_type = Bool.true
is_media audio_type audio_type = Bool.true
is_media other other = Bool.true
is_media _ _ = false

pub record CryptoInfo : Type 0 where
  pub tag : ℕ
  pub cipher_suite : Bytes
  pub key_params : Bytes
  pub media_type : MediaType

pub record CandidateInfo : Type 0 where
  pub is_bundle : Bool
  pub tag : ℕ
  pub priority : ℕ
  pub component_id : ℕ
  pub foundation : Bytes
  pub host_address : Bytes
  pub relay_address : Bytes
  pub host_port : ℕ
  pub relay_port : Option ℕ
  pub net_protocol : Bytes
  pub host_type : HostType
  pub trans_protocol : Bytes
  pub username : Bytes
  pub password : Bytes
  pub media_type : MediaType

-- The default constructor.
abbrev pub new_candidate : CandidateInfo
new_candidate = record {
  is_bundle = false;
  tag = 0;
  priority = 0;
  component_id = 0;
  foundation = [];
  host_address = [];
  relay_address = [];
  host_port = 0;
  relay_port = none;
  net_protocol = [];
  host_type = host;
  trans_protocol = [];
  username = [];
  password = [];
  media_type = other;
}

pub record RtpMap : Type 0 where
  pub payload_type : ℕ
  pub encoding_name : Bytes
  pub clock_rate : ℕ
  pub media_type : MediaType
  pub channels : ℕ

pub record SdpInfo : Type 0 where
  pub audio_ssrc : ℕ
  pub video_ssrc : ℕ
  pub is_bundle : Bool
  pub has_audio : Bool
  pub has_video : Bool
  pub is_rtcp_mux : Bool
  pub profile : Profile
  pub is_fingerprint : Bool
  pub fingerprint : Bytes
  pub in_out_pt_map : PtMap
  pub out_in_pt_map : PtMap
  pub candidate_vector : List CandidateInfo
  pub crypto_vector : List CryptoInfo
  pub payload_vector : List RtpMap
  pub internal_payload_vector : List RtpMap
  pub ice_username : Bytes
  pub ice_password : Bytes
  pub audio_desc : Bytes
  pub video_desc : Bytes
