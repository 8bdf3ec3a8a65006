-- ===== src/Torrent.antt =====
-- include/torrent_metadata.hpp and src/torrent/metadata.cpp: what a .torrent file describes, and how
-- it is read.
pub mod Reading
pub mod Layout
pub mod Whole
mod Examples
use pixel_scrape.Base.{ℕ, Option, List}
use pixel_scrape.Base.Bytes.{Bytes}

pub record TorrentFile : Type 0 where
  pub path : Bytes
  pub size : ℕ
  pub offset : Option ℕ

pub record TorrentMetadata : Type 0 where
  pub announce : Bytes
  pub announce_list : List Bytes
  pub info_hash : Bytes
  pub name : Bytes
  pub piece_length : ℕ
  pub piece_hashes : List Bytes
  pub total_length : ℕ
  pub files : List TorrentFile
