-- ===== src/Container/Store.antt =====
-- What `ContainerImpl` is for the virtual files in it: its free space, its chunks and its directory,
-- over its virtual functions.
use inecontainer.Prelude.{ℕ, Bool, true, false, none, some}
use inecontainer.Status.{Status}
use inecontainer.Area.{ContainerArea}
use inecontainer.Header.{ChunkHeader, update_crc}
use inecontainer.FlushArea.{flush_area}
use inecontainer.Tracker.{
  new_free_space_area, reserve_free_space_area, release_reservation, flush_free_space,
}
use inecontainer.Directory.{file_renamed, file_erased}
use inecontainer.Chunk.{Device, World, load, save}
use inecontainer.DataChunk.{load_data, save_data}
use inecontainer.VirtualFile.{ChunkStore}
use inecontainer.Container.{Container}

module _ {S : Type 0} (dev : Device S) where
  abbrev pub with_world : World S → Container S → Container S
  with_world w c = record c { world = w }

  -- `FillChunk::save` at a file index.
  abbrev pub save_fill : ℕ → ChunkHeader → Container S → Container S × Status
  save_fill file_index h c =
      let (k, w, status) =
        save dev update_crc true (record { header = h; file_index = file_index }) c.world in
      (with_world w c, status)

  abbrev pub seek_to : ℕ → Container S → Container S × Status
  seek_to offset c =
      let (s, status) = dev.set_position offset c.world.device in
      (with_world (record c.world { device = s }) c, status)

  module _ (supports_truncation : Bool) (truncate : S → S × Status) where
    abbrev pub cut : Container S → Container S × Status
    cut c =
        let (s, status) = truncate c.world.device in
        (with_world (record c.world { device = s }) c, status)

    -- `flushArea` sets `lastReportedStatus`. Its loop never runs out of fuel.
    unfoldable pub flush_area_of : ContainerArea → Container S → Container S × Bool
    unfolding flush_area
    flush_area_of area c =
        elim (flush_area save_fill supports_truncation
          (λ (c : Container S). dev.size c.world.device) seek_to cut area c) [
            | none ↦ (c, false)
            | some (c', status, done) ↦ (record c' { last_reported_status = status }, done)
          ]

    unfoldable pub flush_free_space_of : Container S → Container S × Bool
    unfolding flush_free_space flush_area_of
    flush_free_space_of c =
        let (m, c', done) = flush_free_space flush_area_of false c.free_map c in
        (record c' { free_map = m }, done)

    unfoldable pub container_store : ChunkStore (Container S)
    unfolding flush_free_space_of
    container_store = record {
      reserve_free_space_area = λ start minimum desired c.
          let (m, r) =
            reserve_free_space_area start minimum desired (dev.size c.world.device) c.free_map in
          (record c { free_map = m }, r);
      release_reservation =
          λ r c. record c { free_map = release_reservation (dev.size c.world.device) r c.free_map };
      new_free_space_area = λ starting n update c. record c {
        free_map = new_free_space_area starting n update c.free_map;
      };
      flush_free_space = flush_free_space_of;
      save_data =
          λ k c. let (k', w, status) = save_data dev true k c.world in (k', with_world w c, status);
      load_data = λ include k c.
          let (k', w, status) = load_data dev include k c.world in (k', with_world w c, status);
      save_start = λ k c.
          let (k', w, status) = save dev update_crc true k c.world in (k', with_world w c, status);
      load_start = λ include k c.
          let (k', w, status) = load dev include k c.world in (k', with_world w c, status);
      file_renamed = λ old_name new_name c.
          let (d, done) = file_renamed old_name new_name c.directory in
          (record c { directory = d }, done);
      file_erased = λ name c.
          let (d, done) = file_erased name c.directory in (record c { directory = d }, done);
      set_last_status = λ status c. record c { last_reported_status = status };
      last_status = λ c. c.last_reported_status;
    }
