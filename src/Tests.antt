-- ===== src/Tests.antt =====
-- Runs of the definitions on sample inputs.
mod Fixtures
mod SdpRuns
mod SectionRuns
mod OneToManyRuns
mod RtpRuns
mod TextRuns
mod NiceRuns
mod DtlsRuns
mod TransportRuns
mod ConnectionRuns
mod ServingRuns
mod SignallingRuns
mod LockRuns
