-- ===== src/Tests.antt =====
-- Runs of the modelled code on concrete packets, domains and filters.
mod Packets
mod Domains
mod Serving
mod Programs
mod Filters
mod Replies
mod Rounds
